-- ===== src/Resources/Overbooking.antt =====
-- pkg/api/business/resources/service.go: workers that book tasks on one resource at the same time.
use mathlib.Core.List.{map, append_assoc}
use bfo.Common.{◌≡◌, refl, sym, List, [], ◌∷◌, ◌++◌, All, add64, Time, true}
use bfo.Tasks.Types.{Task}
use bfo.Resources.Types.{ResourceInstanceState}
use bfo.Resources.Service.{can_take}
use bfo.Resources.Dispatch.{book}
use bfo.Resources.Workers.{
  Pc, seeking, holding, accepted, choose, read, store, accept, Moves, stay, go, System, step, Reach,
  here, later,
}

abbrev system : ResourceInstanceState → List Pc → System
system m workers = record { stored = m; workers = workers }

Reach-trans : {s t u : System} → Reach s t → Reach t u → Reach s u
Reach-trans first here = first
Reach-trans first (later others last) = later (Reach-trans first others) last

advance :
    {m : ResourceInstanceState} {p : Pc} {m' : ResourceInstanceState} {p' : Pc}
    (before after : List Pc)
    → Moves m p m' p'
    → Reach (system m (before ++ p ∷ after)) (system m' (before ++ p' ∷ after))
advance before after stay = here
advance before after (go moves move) = later (advance before after moves) (step before after move)

-- one worker more in front
in_front :
    {m m' : ResourceInstanceState} (before xs ys : List Pc) (p : Pc)
    → Reach (system m ((before ++ p ∷ []) ++ xs)) (system m' ((before ++ p ∷ []) ++ ys))
    → Reach (system m (before ++ p ∷ xs)) (system m' (before ++ p ∷ ys))
in_front before xs ys p reached =
    rw (sym (append_assoc before (p ∷ []) xs), sym (append_assoc before (p ∷ []) ys)) reached

each_reads :
    (before : List Pc) (ts : List Task) (m : ResourceInstanceState)
    → All (λ t. can_take t m ≡ true) ts
    → Reach (system m (before ++ map seeking ts)) (system m (before ++ map (λ t. holding t m) ts))
each_reads before [] m takes = here
each_reads before (t ∷ ts) m takes =
    Reach-trans (advance before (map seeking ts) (go (go stay (choose takes.0)) read)) (
      in_front before (map seeking ts) (map (λ t. holding t m) ts) (holding t m)
        (each_reads (before ++ holding t m ∷ []) ts m takes.1))

-- what is stored after each worker has stored the state that it holds
abbrev last_stored :
    Time → ResourceInstanceState → List Task → ResourceInstanceState → ResourceInstanceState
last_stored now m0 [] m = m
last_stored now m0 (t ∷ ts) m = last_stored now m0 ts (book t now m0)

each_accepted :
    (before : List Pc) (ts : List Task) (m0 m : ResourceInstanceState) (now : Time)
    → Reach
        (system m (before ++ map (λ t. holding t m0) ts))
        (system (last_stored now m0 ts m) (before ++ map accepted ts))
each_accepted before [] m0 m now = here
each_accepted before (t ∷ ts) m0 m now =
    Reach-trans (advance before (map (λ t. holding t m0) ts) (go (go stay (store now)) accept)) (
      in_front before (map (λ t. holding t m0) ts) (map accepted ts) (accepted t)
        (each_accepted (before ++ accepted t ∷ []) ts m0 (book t now m0) now))

last_stored-active :
    (now : Time) (m0 : ResourceInstanceState) (ts : List Task) (m : ResourceInstanceState)
    → m.active_batches ≡ add64 m0.active_batches 1
    → (last_stored now m0 ts m).active_batches ≡ add64 m0.active_batches 1
unfolding book
last_stored-active now m0 [] m h = h
last_stored-active now m0 (t ∷ ts) m h = last_stored-active now m0 ts (book t now m0) refl

-- Nothing keeps workers that run at the same time within the limit: whatever tasks a state can
-- take one by one, however many they are, workers that all read the state before the first of
-- them stores it can reach a system in which every batch is created, while the stored state
-- counts one batch more than before.
pub overbooked :
    (t : Task) (ts : List Task) (m : ResourceInstanceState) (now : Time)
    → All (λ t. can_take t m ≡ true) (t ∷ ts)
    → (u : System) × Reach (record { stored = m; workers = map seeking (t ∷ ts) }) u
      × (u.workers ≡ map accepted (t ∷ ts))
      × (u.stored.active_batches ≡ add64 m.active_batches 1)
unfolding book
overbooked t ts m now takes = (
  system (last_stored now m (t ∷ ts) m) (map accepted (t ∷ ts)),
  Reach-trans (each_reads [] (t ∷ ts) m takes) (each_accepted [] (t ∷ ts) m m now),
  refl,
  last_stored-active now m ts (book t now m) refl,
)
