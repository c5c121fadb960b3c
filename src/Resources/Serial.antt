-- ===== src/Resources/Serial.antt =====
-- pkg/api/business/resources/service.go: workers that book tasks on one resource one after another.
use bfo.Common.{◌≡◌, refl, ◌≤◌, ◌<◌, true, arith, List, [], ◌∷◌, IsNonNeg, ge64, add64, sub64}
use bfo.Tasks.Types.{Task}
use bfo.Resources.Types.{ResourceInstanceState}
use bfo.Resources.Service.{can_take}
use bfo.Resources.Dispatch.{book, unbook}
use bfo.Resources.Workers.{
  Pc, seeking, chosen, holding, booked, refused, accepted, rejected, Move, choose, turned_away,
  unreadable, read, read_failed, store, store_failed, accept, refuse, roll_back, roll_back_failed,
  Moves, stay, go,
}

-- The tasks are worked on in turn, the latest first in the list: each worker starts where the one
-- before it has ended or stopped.
pub data InTurn (m : ResourceInstanceState) : List Task → ResourceInstanceState → Type 0 where
  none_left : InTurn m [] m
  turn :
      {t : Task} {ts : List Task} {m1 m2 : ResourceInstanceState} {p : Pc}
      → InTurn m ts m1
      → Moves m1 (seeking t) m2 p
      → InTurn m (t ∷ ts) m2

-- The batches are within the limit, which is no negative number.
pub record Fits (m : ResourceInstanceState) : Type 0 where
  pub limit : IsNonNeg m.max_concurrent_batches
  pub within : m.active_batches ≤ m.max_concurrent_batches

pub record HasRoom (m : ResourceInstanceState) : Type 0 where
  pub limit : IsNonNeg m.max_concurrent_batches
  pub below : m.active_batches < m.max_concurrent_batches

pub record IsBooked (m : ResourceInstanceState) : Type 0 where
  pub fits : Fits m
  pub counted : 0 < m.active_batches

-- What holds of the stored state where a lone worker stands.
abbrev At : ResourceInstanceState → Pc → Type 0
At m (seeking t) = Fits m
At m (chosen t) = HasRoom m
At m (holding t s) = (s ≡ m) × HasRoom m
At m (booked t s) = (s ≡ m) × IsBooked m
At m (refused t s) = (s ≡ m) × IsBooked m
At m (accepted t) = Fits m
At m (rejected t) = Fits m

pub can_take-HasRoom :
    (t : Task) (m : ResourceInstanceState) → Fits m → can_take t m ≡ true → HasRoom m
unfolding can_take ge64
can_take-HasRoom t m h takes = record { limit = h.limit; below = ground arith }

HasRoom-Fits : (m : ResourceInstanceState) → HasRoom m → Fits m
HasRoom-Fits m h = record { limit = h.limit; within = ground arith }

pub book-IsBooked :
    (t : Task) (now : _) (m : ResourceInstanceState) → HasRoom m → IsBooked (book t now m)
unfolding book add64
book-IsBooked t now m h = record {
  fits = record { limit = h.limit; within = ground arith };
  counted = ground arith;
}

pub unbook-Fits : (t : Task) (m : ResourceInstanceState) → IsBooked m → Fits (unbook t m)
unfolding unbook sub64
unbook-Fits t m h = record { limit = h.fits.limit; within = ground arith }

Move-At : {m m' : ResourceInstanceState} {p p' : Pc} → Move m p m' p' → At m p → At m' p'
Move-At {m} (choose {t} takes) h = can_take-HasRoom t m h takes
Move-At (turned_away full) h = h
Move-At unreadable h = h
Move-At read h = (refl, h)
Move-At {m} read_failed h = HasRoom-Fits m h
Move-At {m} (store {t} {s} now) (same, h) = (refl, book-IsBooked t now s (rw same h))
Move-At {m} store_failed (same, h) = HasRoom-Fits m h
Move-At accept (same, h) = h.fits
Move-At refuse h = h
Move-At (roll_back {t} {s}) (same, h) = unbook-Fits t s (rw same h)
Move-At roll_back_failed (same, h) = h.fits

Moves-At :
    {m : ResourceInstanceState} {p : Pc} {m' : ResourceInstanceState} {p' : Pc}
    → Moves m p m' p'
    → At m p
    → At m' p'
Moves-At stay h = h
Moves-At (go moves move) h = Move-At move (Moves-At moves h)

At-Fits : (m : ResourceInstanceState) (p : Pc) → At m p → Fits m
At-Fits m (seeking t) h = h
At-Fits m (chosen t) h = HasRoom-Fits m h
At-Fits m (holding t s) h = HasRoom-Fits m h.1
At-Fits m (booked t s) h = h.1.fits
At-Fits m (refused t s) h = h.1.fits
At-Fits m (accepted t) h = h
At-Fits m (rejected t) h = h

-- Workers that take turns never exceed the limit of batches: from a state within its limit, which
-- is no negative number, a run of any tasks one after another, each ended or stopped anywhere,
-- leads to a state within its limit.
pub InTurn-Fits :
    {m : ResourceInstanceState} {ts : List Task} {m' : ResourceInstanceState}
    → InTurn m ts m'
    → Fits m
    → Fits m'
InTurn-Fits none_left h = h
InTurn-Fits (turn {m2 = m2} {p = p} before moves) h =
    At-Fits m2 p (Moves-At moves (InTurn-Fits before h))
