-- ===== src/Resources/Ledger.antt =====
-- pkg/api/business/resources/service.go: the counters of a resource as the books of its workers.
use bfo.Common.{
  ◌≡◌, refl, ◌⊎◌, inl, inr, List, [], ◌∷◌, ◌++◌, arith, add64, sub64-add64, add64-lt, IsWord, ap,
}
use bfo.Tasks.Types.{Task}
use bfo.Resources.Types.{ResourceInstanceState}
use bfo.Resources.Service.{token_need}
use bfo.Resources.Books.{Balances, IsCounted, Balances-append, Balances-IsCounted}
use bfo.Resources.Dispatch.{book, unbook}
use bfo.Resources.Workers.{
  Pc, seeking, chosen, holding, booked, refused, accepted, rejected, Move, choose, turned_away,
  unreadable, read, read_failed, store, store_failed, accept, refuse, roll_back, roll_back_failed,
  Moves, stay, go,
}

-- Workers in turn, with the point at which each has ended or stopped, the latest first.
pub data Turns (m : ResourceInstanceState) : List Pc → ResourceInstanceState → Type 0 where
  no_turns : Turns m [] m
  next_turn :
      {t : Task} {ps : List Pc} {m1 m2 : ResourceInstanceState} {p : Pc}
      → Turns m ps m1
      → Moves m1 (seeking t) m2 p
      → Turns m (p ∷ ps) m2

abbrev pub task_of : Pc → Task
task_of (seeking t) = t
task_of (chosen t) = t
task_of (holding t s) = t
task_of (booked t s) = t
task_of (refused t s) = t
task_of (accepted t) = t
task_of (rejected t) = t

-- The task of a worker that stands here can be on the books. That of a rejected one is where its
-- rollback has failed, which its end does not show.
abbrev pub MayBeBooked : Pc → Type 0
MayBeBooked (seeking t) = ⊥
MayBeBooked (chosen t) = ⊥
MayBeBooked (holding t s) = ⊥
MayBeBooked (booked t s) = Unit {0}
MayBeBooked (refused t s) = Unit {0}
MayBeBooked (accepted t) = Unit {0}
MayBeBooked (rejected t) = Unit {0}

-- It can be off the books.
abbrev pub MayBeFree : Pc → Type 0
MayBeFree (seeking t) = Unit {0}
MayBeFree (chosen t) = Unit {0}
MayBeFree (holding t s) = Unit {0}
MayBeFree (booked t s) = ⊥
MayBeFree (refused t s) = ⊥
MayBeFree (accepted t) = ⊥
MayBeFree (rejected t) = Unit {0}

-- These tasks are the ones on the books after such turns.
pub data OnBooks : List Pc → List Task → Type 0 where
  none_booked : OnBooks [] []
  on_books :
      {ps : List Pc} {ts : List Task} (p : Pc)
      → MayBeBooked p
      → OnBooks ps ts
      → OnBooks (p ∷ ps) (task_of p ∷ ts)
  off_books :
      {ps : List Pc} {ts : List Task} (p : Pc) → MayBeFree p → OnBooks ps ts → OnBooks (p ∷ ps) ts

abbrev Alone : ResourceInstanceState → Task → ResourceInstanceState → Type 0
Alone m0 t m = Balances m0 (t ∷ []) m

-- What holds of the stored state where a lone worker stands that has started at `m0`.
abbrev At : ResourceInstanceState → ResourceInstanceState → Pc → Type 0
At m0 m (seeking t) = Balances m0 [] m
At m0 m (chosen t) = Balances m0 [] m
At m0 m (holding t s) = (s ≡ m) × Balances m0 [] m
At m0 m (booked t s) = (s ≡ m) × Alone m0 t m
At m0 m (refused t s) = (s ≡ m) × Alone m0 t m
At m0 m (accepted t) = Alone m0 t m
At m0 m (rejected t) = (Balances m0 [] m) ⊎ (Alone m0 t m)

book-Balances :
    (m0 m : ResourceInstanceState) (t : Task) (now : _)
    → Balances m0 [] m
    → Alone m0 t (book t now m)
unfolding book
book-Balances m0 m t now h = record {
  batches = ap (λ a. add64 a 1) h.batches;
  load = ap (λ a. add64 a (token_need t)) h.load;
}

one-IsWord : IsWord 1
one-IsWord = omega arith

need-IsWord : (t : Task) → IsWord (token_need t)
need-IsWord t = add64-lt t.estimated_input_tokens t.max_tokens

unbook-Balances :
    (m0 m : ResourceInstanceState) (t : Task)
    → IsCounted m0
    → Alone m0 t m
    → Balances m0 [] (unbook t m)
unfolding unbook
unbook-Balances m0 m t words h = record {
  batches = rw h.batches (sub64-add64 m0.active_batches 1 words.batches one-IsWord);
  load = rw h.load (sub64-add64 m0.current_token_load (token_need t) words.load (need-IsWord t));
}

Move-At :
    {m0 m m' : ResourceInstanceState} {p p' : Pc}
    → Move m p m' p'
    → IsCounted m0
    → At m0 m p
    → At m0 m' p'
Move-At (choose takes) words h = h
Move-At (turned_away full) words h = inl h
Move-At unreadable words h = inl h
Move-At read words h = (refl, h)
Move-At read_failed words h = inl h
Move-At {m0} (store {t} {s} now) words (same, h) = (refl, book-Balances m0 s t now (rw same h))
Move-At store_failed words (same, h) = inl h
Move-At accept words (same, h) = h
Move-At refuse words h = h
Move-At {m0} (roll_back {t} {s}) words (same, h) = inl (unbook-Balances m0 s t words (rw same h))
Move-At roll_back_failed words (same, h) = inr h

Moves-At :
    {m : ResourceInstanceState} {p : Pc} {m' : ResourceInstanceState} {p' : Pc}
    (m0 : ResourceInstanceState)
    → Moves m p m' p'
    → IsCounted m0
    → At m0 m p
    → At m0 m' p'
Moves-At m0 stay words h = h
Moves-At m0 (go moves move) words h = Move-At move words (Moves-At m0 moves words h)

-- What a worker adds to the books.
At-OnBooks :
    (m0 m : ResourceInstanceState) (ps : List Pc) (ts : List Task) (p : Pc)
    → OnBooks ps ts
    → At m0 m p
    → (added : List Task) × OnBooks (p ∷ ps) (added ++ ts) × Balances m0 added m
At-OnBooks m0 m ps ts (seeking t) o h = ([], off_books (seeking t) tt o, h)
At-OnBooks m0 m ps ts (chosen t) o h = ([], off_books (chosen t) tt o, h)
At-OnBooks m0 m ps ts (holding t s) o h = ([], off_books (holding t s) tt o, h.1)
At-OnBooks m0 m ps ts (booked t s) o h = (t ∷ [], on_books (booked t s) tt o, h.1)
At-OnBooks m0 m ps ts (refused t s) o h = (t ∷ [], on_books (refused t s) tt o, h.1)
At-OnBooks m0 m ps ts (accepted t) o h = (t ∷ [], on_books (accepted t) tt o, h)
At-OnBooks m0 m ps ts (rejected t) o (inl h) = ([], off_books (rejected t) tt o, h)
At-OnBooks m0 m ps ts (rejected t) o (inr h) = (t ∷ [], on_books (rejected t) tt o, h)

-- The counters of a resource are the books of its workers: after workers that take turns on it,
-- each ended or stopped anywhere, its active batches and its token load are those at the start,
-- which are words, with the tasks of a list added one by one in 64 bits; the task of each worker
-- that ended with its batch, or stopped between its first store and its end, is on the list, that
-- of a worker that has stored nothing is not, and that of one that was rejected may be.
pub Turns-Balances :
    {m : ResourceInstanceState} {ps : List Pc} {m' : ResourceInstanceState}
    → Turns m ps m'
    → IsCounted m
    → (ts : List Task) × OnBooks ps ts × Balances m ts m'
Turns-Balances no_turns words = ([], none_booked, record { batches = refl; load = refl })
Turns-Balances {m} (next_turn {ps = ps} {m1 = m1} {m2 = m2} {p = p} before moves) words =
    let (ts, books, balance) = Turns-Balances before words in
    let stands =
      Moves-At m1 moves (Balances-IsCounted m m1 ts words balance)
        (record { batches = refl; load = refl }) in
    let (added, books', gained) = At-OnBooks m1 m2 ps ts p books stands in
    (added ++ ts, books', Balances-append m m1 m2 added ts balance gained)
