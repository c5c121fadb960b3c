-- ===== src/Resources/Exhaustion.antt =====
-- pkg/api/business/resources/service.go: a resource whose batches are all taken. No part of the
-- program gives a batch back when it is done: `HandleBatchCompletion` is only a comment there.
use bfo.Common.{List, [], ◌∷◌, ◌++◌, ◌∙◌, ◌≡◌, refl, true, ge64, arith, All, ◌≢◌}
use bfo.Tasks.Types.{Task}
use bfo.Resources.Types.{ResourceInstanceState}
use bfo.Resources.Service.{can_take}
use bfo.Resources.Workers.{
  Pc, seeking, accepted, rejected, chosen, holding, booked, refused, Move, choose, turned_away,
  unreadable, read, read_failed, store, store_failed, accept, refuse, roll_back, roll_back_failed,
  System, Step, step, Reach, here, later,
}
use bfo.Resources.Limits.{All-middle, All-replace}

-- A worker that holds nothing that it could store: it seeks, or it has ended.
abbrev pub IsOutside : Pc → Type 0
IsOutside (seeking t) = Unit {0}
IsOutside (accepted t) = Unit {0}
IsOutside (rejected t) = Unit {0}
IsOutside (chosen t) = ⊥
IsOutside (holding t s) = ⊥
IsOutside (booked t s) = ⊥
IsOutside (refused t s) = ⊥

pub full-can_take :
    (t : Task) (m : ResourceInstanceState)
    → ge64 m.active_batches m.max_concurrent_batches ≡ true
    → can_take t m ≢ true
unfolding can_take
full-can_take t m full takes = ground arith

-- What is left to a worker where the resource is full: it stands where it stood, or its search
-- has ended and its task is not dispatched.
pub data Remains : Pc → Pc → Type 0 where
  remains : (p : Pc) → Remains p p
  gives_up : (t : Task) → Remains (seeking t) (rejected t)

-- The same for all workers.
pub data AllRemain : List Pc → List Pc → Type 0 where
  no_workers : AllRemain [] []
  next_worker :
      {p p' : Pc} {ps ps' : List Pc}
      → Remains p p'
      → AllRemain ps ps'
      → AllRemain (p ∷ ps) (p' ∷ ps')

-- What a move where the resource is full leaves.
record Spent (m m' : ResourceInstanceState) (p p' : Pc) : Type 0 where
  same : m' ≡ m
  left : Remains p p'
  outside : IsOutside p'

Move-Spent :
    {m m' : ResourceInstanceState} {p p' : Pc}
    → Move m p m' p'
    → ge64 m.active_batches m.max_concurrent_batches ≡ true
    → IsOutside p
    → Spent m m' p p'
Move-Spent {m} (choose {t} takes) full outside = absurd (full-can_take t m full takes)
Move-Spent (turned_away {t} _) full outside = record {
  same = refl;
  left = gives_up t;
  outside = tt;
}
Move-Spent (unreadable {t}) full outside = record { same = refl; left = gives_up t; outside = tt }
Move-Spent read full outside = elim outside [ ]
Move-Spent read_failed full outside = elim outside [ ]
Move-Spent (store now) full outside = elim outside [ ]
Move-Spent store_failed full outside = elim outside [ ]
Move-Spent accept full outside = elim outside [ ]
Move-Spent refuse full outside = elim outside [ ]
Move-Spent roll_back full outside = elim outside [ ]
Move-Spent roll_back_failed full outside = elim outside [ ]

AllRemain-refl : (ps : List Pc) → AllRemain ps ps
AllRemain-refl [] = no_workers
AllRemain-refl (p ∷ ps) = next_worker (remains p) (AllRemain-refl ps)

Remains-trans : {p p' p'' : Pc} → Remains p p' → Remains p' p'' → Remains p p''
Remains-trans (remains p) second = second
Remains-trans (gives_up t) (remains _) = gives_up t

AllRemain-trans : {ps qs rs : List Pc} → AllRemain ps qs → AllRemain qs rs → AllRemain ps rs
AllRemain-trans no_workers no_workers = no_workers
AllRemain-trans (next_worker first others) (next_worker second rest) =
    next_worker (Remains-trans first second) (AllRemain-trans others rest)

AllRemain-middle :
    (before : List Pc) {p p' : Pc} (after : List Pc)
    → Remains p p'
    → AllRemain (before ++ p ∷ after) (before ++ p' ∷ after)
AllRemain-middle [] after left = next_worker left (AllRemain-refl after)
AllRemain-middle (b ∷ before) after left =
    next_worker (remains b) (AllRemain-middle before after left)

-- The stored state is the one at the start, and the workers remain.
pub record Stuck (s u : System) : Type 0 where
  pub same_state : u.stored ≡ s.stored
  pub same_workers : AllRemain s.workers u.workers
  pub outside : All IsOutside u.workers

Step-Stuck :
    {s u : System}
    → Step s u
    → ge64 s.stored.active_batches s.stored.max_concurrent_batches ≡ true
    → All IsOutside s.workers
    → Stuck s u
Step-Stuck (step {p = p} {p' = p'} before after move) full outside =
    let spent = Move-Spent move full (All-middle IsOutside before after p outside) in
    record {
      same_state = spent.same;
      same_workers = AllRemain-middle before after spent.left;
      outside = All-replace IsOutside before after p p' outside spent.outside;
    }

-- A resource that is full stays full, and dispatches nothing more: where the active batches are at
-- the limit or above it, as the code compares them, and every worker seeks or has ended, then in
-- every system that is reached the stored state is the one at the start, and each worker stands
-- where it stood or was seeking and has ended without its task being dispatched.
pub Reach-full :
    {s u : System}
    → Reach s u
    → ge64 s.stored.active_batches s.stored.max_concurrent_batches ≡ true
    → All IsOutside s.workers
    → Stuck s u
Reach-full {s} here full outside = record {
  same_state = refl;
  same_workers = AllRemain-refl s.workers;
  outside = outside;
}
Reach-full {s} (later {t = t} {u = u} others last) full outside =
    let before = Reach-full others full outside in
    let after = Step-Stuck last (rw before.same_state full) before.outside in
    record {
      same_state = after.same_state ∙ before.same_state;
      same_workers = AllRemain-trans before.same_workers after.same_workers;
      outside = after.outside;
    }
