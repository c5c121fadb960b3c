-- ===== src/AppContext/Startup.antt =====
-- pkg/api/adapters/appcontext/appcontext.go, `Init`: how the application comes up, and what its
-- first tick does then.
use bfo.Common.{
  ◌≡◌, ◌∙◌, ◌≢◌, ap, Bool, true, false, String, none, some, List, [], ◌∷◌, arith, ok, fail, panic,
  GoError, init_failed, chain_has, Runtime, Returns,
}
use bfo.Tasks.Types.{TaskWithReceipt, Updates}
use bfo.Tasks.Service as Tasks
use bfo.Adapters.Repository.{Repository, for_tasks, update_task_status, pick_task_from_queue}
use bfo.AppContext.{AppContext, process_fn, tick}
use bfo.Tasks.Worker.{handle_record, handle_records, pick_up_next_available_task}
use bfo.Tasks.Delivery.{Keeps}
use bfo.AppContext.Init.{Environment, init}
use bfo.AppContext.Ticks.{tick_unset}

-- `errors.Is(err, ErrInitFailed)`
unfoldable pub is_init_failed : GoError → Bool
unfolding chain_has
is_init_failed e = chain_has (λ x. elim x [ init_failed ↦ true | _ ↦ false ]) e

-- Every error of `Init` is an `ErrInitFailed` by `errors.Is`, whichever step has failed.
pub init_errors :
    {W Item Cfg : Type 0} (env : Environment W Item Cfg) (w : W) (e : GoError)
    → (init env w).0 ≡ fail e
    → is_init_failed e ≡ true
unfolding init is_init_failed
init_errors env w e failed = grind arith

pub init-context :
    {W Item Cfg : Type 0} (env : Environment W Item Cfg) (w : W) (r : Repository W Item)
    (a : AppContext W)
    → (init env w).0 ≡ ok (r, a)
    → (a.resources ≡ none) × (a.tasks.context ≢ none) × (a.tasks.repository ≡ for_tasks r)
unfolding init Tasks.init Tasks.new_service
init-context env w r a done = grind arith

for_tasks-update :
    {W Item : Type 0} (r : Repository W Item) (repository : Tasks.Repository W)
    → repository ≡ for_tasks r
    → (id : String) (m : Updates) → Returns (repository.update_task_status id m)
unfolding for_tasks update_task_status
for_tasks-update r repository same id m w = ground (arith, same)

-- The first message that is received after a successful start makes the tick panic.
pub init-tick :
    {W Item Cfg : Type 0} (env : Environment W Item Cfg) (rt : Runtime W) (w : W)
    (r : Repository W Item) (a : AppContext W) (url : String) (x : TaskWithReceipt)
    (xs : List TaskWithReceipt) (v : W)
    → (init env w).0 ≡ ok (r, a)
    → a.tasks.context ≡ some url
    → (pick_task_from_queue r url v).0 ≡ ok (x ∷ xs)
    → (tick rt a v).0 ≡ panic
unfolding for_tasks
init-tick env rt w r a url x xs v done set received =
    let up = init-context env w r a done in
    tick_unset rt a url x xs v up.0 set (ap (λ q. (q.pick_task_from_queue url v).0) up.2 ∙ received)
      (for_tasks-update r a.tasks.repository up.2)

module _ {W : Type 0} (P : W → Type 0) (rt : Runtime W) (a : AppContext W)
    (unset : a.resources ≡ none) (now : (w : W) → P w → P (rt.now w).1)
    (update : (id : String) (m : Updates)
      → Keeps P (a.tasks.repository.update_task_status id m)) where
  handle_record_unset :
      (url : String) (x : TaskWithReceipt)
      → Keeps P (handle_record a.tasks url rt (process_fn rt a) x)
  unfolding handle_record process_fn
  handle_record_unset url x w p = grind (arith, now, update)

  handle_records_unset :
      (url : String) (xs : List TaskWithReceipt)
      → Keeps P (handle_records a.tasks url rt (process_fn rt a) xs)
  unfolding handle_records
  handle_records_unset url [] w p = p
  handle_records_unset url (x ∷ xs) w p =
      grind (arith, handle_record_unset url x w p, handle_records_unset url xs)

  tick_unset-Keeps :
      ((url : String) → Keeps P (a.tasks.repository.pick_task_from_queue url)) → Keeps P (tick rt a)
  unfolding tick pick_up_next_available_task
  tick_unset-Keeps pick w p = grind (arith, pick, handle_records_unset)

for_tasks-Keeps :
    {W Item : Type 0} (P : W → Type 0) (r : Repository W Item) (repository : Tasks.Repository W)
    → repository ≡ for_tasks r
    → (id : String) (m : Updates) → Keeps P (repository.update_task_status id m)
unfolding for_tasks update_task_status
for_tasks-Keeps P r repository same id m w p = rw same p

-- After a successful start one tick keeps what the clock and receiving keep.
pub init-tick-Keeps :
    {W Item Cfg : Type 0} (P : W → Type 0) (env : Environment W Item Cfg) (rt : Runtime W) (w : W)
    (r : Repository W Item) (a : AppContext W)
    → (init env w).0 ≡ ok (r, a)
    → ((v : W) → P v → P (rt.now v).1)
    → ((url : String) → Keeps P (pick_task_from_queue r url))
    → Keeps P (tick rt a)
unfolding for_tasks
init-tick-Keeps P env rt w r a done now pick =
    let up = init-context env w r a done in
    tick_unset-Keeps P rt a up.0 now (for_tasks-Keeps P r a.tasks.repository up.2)
      (λ url v p. rw up.2 (pick url v p))
