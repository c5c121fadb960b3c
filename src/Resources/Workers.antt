-- ===== src/Resources/Workers.antt =====
-- pkg/api/business/resources/service.go: several workers that book tasks on one resource, an
-- access to its stored state at a time, from the choice of the resource in
-- `FindBestAvailableResource` to the end of `DispatchTask`. The version is written and never
-- compared, so nothing orders the workers. A worker that panics makes no further move.
use bfo.Common.{◌≡◌, true, false, List, ◌∷◌, ◌++◌, Time}
use bfo.Tasks.Types.{Task}
use bfo.Resources.Types.{ResourceInstanceState}
use bfo.Resources.Service.{can_take}
use bfo.Resources.Dispatch.{book, unbook}

-- Where a worker stands, with the state that it holds there.
pub data Pc : Type 0 where
  seeking : Task → Pc  -- before the state is read for the choice
  chosen : Task → Pc  -- at the start of `DispatchTask`
  holding : Task → ResourceInstanceState → Pc  -- the state was read
  booked : Task → ResourceInstanceState → Pc  -- it was stored with the task booked
  refused : Task → ResourceInstanceState → Pc  -- the provider refused the batch
  accepted : Task → Pc  -- the batch was created
  rejected : Task → Pc  -- the task was not dispatched

-- One access of one worker, from and to a stored state.
pub data Move (m : ResourceInstanceState) : Pc → ResourceInstanceState → Pc → Type 0 where
  choose : {t : Task} → can_take t m ≡ true → Move m (seeking t) m (chosen t)
  turned_away : {t : Task} → can_take t m ≡ false → Move m (seeking t) m (rejected t)
  unreadable : {t : Task} → Move m (seeking t) m (rejected t)  -- the read for the choice failed
  read : {t : Task} → Move m (chosen t) m (holding t m)
  read_failed : {t : Task} → Move m (chosen t) m (rejected t)
  store :
      {t : Task} {s : ResourceInstanceState} (now : Time)
      → Move m (holding t s) (book t now s) (booked t (book t now s))
  store_failed : {t : Task} {s : ResourceInstanceState} → Move m (holding t s) m (rejected t)
  accept : {t : Task} {s : ResourceInstanceState} → Move m (booked t s) m (accepted t)
  refuse : {t : Task} {s : ResourceInstanceState} → Move m (booked t s) m (refused t s)
  roll_back :
      {t : Task} {s : ResourceInstanceState} → Move m (refused t s) (unbook t s) (rejected t)
  roll_back_failed : {t : Task} {s : ResourceInstanceState} → Move m (refused t s) m (rejected t)

-- Moves of one worker, with no other between them.
pub data Moves (m : ResourceInstanceState) (p : Pc) : ResourceInstanceState → Pc → Type 0 where
  stay : Moves m p m p
  go :
      {m1 m2 : ResourceInstanceState} {p1 p2 : Pc}
      → Moves m p m1 p1
      → Move m1 p1 m2 p2
      → Moves m p m2 p2

-- The stored state, and all workers.
pub record System : Type 0 where
  pub stored : ResourceInstanceState
  pub workers : List Pc

pub data Step : System → System → Type 0 where
  step :
      {m m' : ResourceInstanceState} {p p' : Pc} (before after : List Pc)
      → Move m p m' p'
      → Step
          (record { stored = m; workers = before ++ p ∷ after })
          (record { stored = m'; workers = before ++ p' ∷ after })

pub data Reach (s : System) : System → Type 0 where
  here : Reach s s
  later : {t u : System} → Reach s t → Step t u → Reach s u
