-- ===== src/AppContext/Ticks.antt =====
-- pkg/api/adapters/appcontext/appcontext.go, `Tick`: what one tick of the worker does to messages.
use bfo.Common.{
  ◌≡◌, ◌≢◌, ◌⊎◌, inl, String, All, [], Option, none, some, List, ◌∷◌, arith, ok, panic, Runtime,
  Returns,
}
use bfo.Tasks.Types.{Task, TaskWithReceipt, Updates}
use bfo.Tasks.Service.{Reply, success, system_permanently_failed}
use bfo.Tasks.Worker.{handle_record, handle_records, pick_up_next_available_task}
use bfo.Tasks.Delivery.{AsksRetry, Keeps, pick_up-Keeps_message}
use bfo.Resources.Types.{Provider}
use bfo.Resources.Service as Resources
use bfo.Resources.Service.{find_best_available_resource}
use bfo.Resources.Dispatch.{dispatch_reply, try_process_task}
use bfo.AppContext.{AppContext, process_fn, tick}

-- With no resources service, which `Init` never sets, the first message that is received makes the
-- tick panic, whatever it holds: the tasks service is initialised, at least one record is received,
-- and the status update before the processing comes back.
pub tick_unset :
    {W : Type 0} (rt : Runtime W) (a : AppContext W) (url : String) (r : TaskWithReceipt)
    (rs : List TaskWithReceipt) (w : W)
    → a.resources ≡ none
    → a.tasks.context ≡ some url
    → (a.tasks.repository.pick_task_from_queue url w).0 ≡ ok (r ∷ rs)
    → ((id : String) (m : Updates) → Returns (a.tasks.repository.update_task_status id m))
    → (tick rt a w).0 ≡ panic
unfolding tick process_fn pick_up_next_available_task handle_records handle_record
tick_unset rt a url r rs w unset init received update = grind (arith, update)

dispatch_reply-success :
    {W : Type 0} (rt : Runtime W) (s : Resources.Service W) (task : Task)
    (found : Option (Provider W × String)) (w : W) (reply : Reply)
    → (dispatch_reply rt s task found w).0 ≡ ok reply
    → (reply.error ≢ none) ⊎ (reply.result ≡ success)
unfolding dispatch_reply
dispatch_reply-success rt s task none w reply e = ground arith
dispatch_reply-success rt s task (some (provider, key)) w reply e = ground arith

-- A reply of the worker's process function is a success without an error, or it has an error and
-- the result `TaskResultSystemPermanentlyFailed`: a temporary failure of the resources service
-- never reaches the branch of the loop that is there for it.
pub process_fn-cases :
    {W : Type 0} (rt : Runtime W) (a : AppContext W) (task : Task) (w : W) (reply : Reply)
    → (process_fn rt a task w).0 ≡ ok reply
    → ((reply.error ≡ none) × (reply.result ≡ success))
      ⊎ ((reply.error ≢ none) × (reply.result ≡ system_permanently_failed))
unfolding process_fn try_process_task
process_fn-cases rt a task w reply e = grind (arith, dispatch_reply-success)

process_fn_error :
    {W : Type 0} (rt : Runtime W) (a : AppContext W) (task : Task) (w : W) (reply : Reply)
    → (process_fn rt a task w).0 ≡ ok reply
    → ((s : Resources.Service W)
        → a.resources ≡ some s
        → (answer : Reply) → (try_process_task rt s task w).0 ≡ ok answer
        → answer.error ≢ none)
    → reply.error ≢ none
unfolding process_fn
process_fn_error rt a task w reply replied fails = grind (arith, fails)

-- What the retries of the tick ask for follows from errors of `TryProcessTask`.
All-process_fn :
    {W : Type 0} (P : W → Type 0) (rt : Runtime W) (a : AppContext W) (receipt : String)
    (records : List TaskWithReceipt)
    → All
        (λ r.
          r.receipt_handle ≡ receipt
          → (task : Task) (s : Resources.Service W) (v : W) (reply : Reply) → P v
          → r.task ≡ some task
          → a.resources ≡ some s
          → (try_process_task rt s task v).0 ≡ ok reply
          → reply.error ≢ none)
        records
    → All
        (λ r.
          r.receipt_handle ≡ receipt
          → (task : Task) (v : W) (reply : Reply) → P v
          → r.task ≡ some task
          → (process_fn rt a task v).0 ≡ ok reply
          → AsksRetry reply)
        records
All-process_fn P rt a receipt [] fails = tt
All-process_fn P rt a receipt (r ∷ rs) (fails, rest) = (
  λ same task v reply p there replied. inl (
      process_fn_error rt a task v reply replied
        (λ s set answer answered. fails same task s v answer p there set answered)),
  All-process_fn P rt a receipt rs rest,
)

-- A message stays in the queue where `TryProcessTask` fails on its task, whatever becomes of the
-- other messages of the tick. Let the tasks service be initialised and some records be received,
-- of which each with this receipt has a task that `TryProcessTask` answers with an error
-- whenever it replies; other records may succeed. `P` is any property of the outside world, such
-- as "the message with this receipt is in the queue", that holds when the records are received,
-- and that the clock, status updates, the deletion of other receipts and all processing keep.
-- Then `P` holds after the tick, which may panic or fail on the way.
pub tick-Keeps_message :
    {W : Type 0} (P : W → Type 0) (rt : Runtime W) (a : AppContext W) (receipt url : String)
    (records : List TaskWithReceipt) (w : W)
    → a.tasks.context ≡ some url
    → (a.tasks.repository.pick_task_from_queue url w).0 ≡ ok records
    → P (a.tasks.repository.pick_task_from_queue url w).1
    → ((w : W) → P w → P (rt.now w).1)
    → ((id : String) (m : Updates) → Keeps P (a.tasks.repository.update_task_status id m))
    → ((task : Task) → Keeps P (process_fn rt a task))
    → ((other : String)
        → other ≢ receipt
        → Keeps P (a.tasks.repository.delete_task_from_queue url other))
    → All
        (λ r.
          r.receipt_handle ≡ receipt
          → (task : Task) (s : Resources.Service W) (v : W) (reply : Reply) → P v
          → r.task ≡ some task
          → a.resources ≡ some s
          → (try_process_task rt s task v).0 ≡ ok reply
          → reply.error ≢ none)
        records
    → P (tick rt a w).1
unfolding tick
tick-Keeps_message P rt a receipt url records w init picked held now update process delete fails =
    pick_up-Keeps_message P a.tasks rt (process_fn rt a) receipt url records w init picked held now
      update process delete (All-process_fn P rt a receipt records fails)
