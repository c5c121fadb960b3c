-- ===== src/Tasks/Outcome.antt =====
-- pkg/api/business/tasks/service.go: how a round of the worker ends, and what success removes.
use bfo.Common.{
  String, true, Option, none, some, List, [], ◌∷◌, ◌≡◌, ◌≢◌, arith, ok, fail, panic, GoError, tasks,
  TasksError, Runtime, refl, Returns, Succeeds, All, is_ok, on_error, str_eq, if◌then◌else◌,
}
use bfo.Tasks.Types.{Task, TaskBucket, TaskWithReceipt, Updates}
use bfo.Tasks.Service.{
  message_temporarily_failed, system_temporarily_failed, Service, Reply, ProcessFn,
  update_task_bucket, dispatch_task,
}
use bfo.Tasks.Worker.{
  in_progress, conclude, update_final_status, finish_record, handle_record, handle_records,
  pick_up_next_available_task,
}
use bfo.Tasks.Delivery.{Keeps}

module _ {W : Type 0} (s : Service W) (url : String) (rt : Runtime W) (process_fn : ProcessFn W)
    (update_returns : (id : String) (m : Updates) → Returns (s.repository.update_task_status id m))
    (delete_returns : (url receipt : String)
      → Returns (s.repository.delete_task_from_queue url receipt))
    (process_replies : (task : Task) → Succeeds (process_fn task)) where
  conclude-Succeeds :
      (receipt : String) (reply : Reply) (m : Updates) → Succeeds (conclude s url receipt reply m)
  unfolding conclude
  conclude-Succeeds receipt reply m w = grind (arith, delete_returns url receipt)

  update_final_status-Succeeds :
      (id : String) (m : Updates) → Succeeds (update_final_status s url id m)
  unfolding update_final_status
  update_final_status-Succeeds id m w = grind (arith, update_returns id m)

  finish_record-Succeeds :
      (receipt : String) (reply : Reply) → Succeeds (finish_record s url rt receipt reply)
  unfolding finish_record
  finish_record-Succeeds receipt reply w =
      grind (arith, conclude-Succeeds receipt reply, update_final_status-Succeeds)

  handle_record-Succeeds :
      (r : TaskWithReceipt) → r.task ≢ none → Succeeds (handle_record s url rt process_fn r)
  unfolding handle_record
  handle_record-Succeeds r h w =
      grind (arith, update_returns, process_replies, finish_record-Succeeds r.receipt_handle)

  handle_records-Succeeds :
      (rs : List TaskWithReceipt)
      → All (λ r. r.task ≢ none) rs
      → Succeeds (handle_records s url rt process_fn rs)
  unfolding handle_records
  handle_records-Succeeds [] h w = refl
  handle_records-Succeeds (r ∷ rs) h w =
      grind (arith, handle_record-Succeeds r h.0, handle_records-Succeeds rs h.1)

-- The reply settles the message: no error, and a result that asks for no retry.
abbrev pub Settles : Reply → Type 0
Settles reply =
    (reply.error ≡ none)
    × (reply.result ≢ system_temporarily_failed)
    × (reply.result ≢ message_temporarily_failed)

module _ {W : Type 0} (Q : W → Type 0) (s : Service W) (url : String) (rt : Runtime W)
    (receipt : String) (now_keeps : (w : W) → Q w → Q (rt.now w).1)
    (update_keeps : (id : String) (m : Updates) → Keeps Q (s.repository.update_task_status id m))
    (delete_returns : Returns (s.repository.delete_task_from_queue url receipt))
    (delete_removes : (w : W) → Q (s.repository.delete_task_from_queue url receipt w).1) where
  conclude-removes :
      (reply : Reply) (m : Updates) (w : W)
      → Settles reply
      → Q (conclude s url receipt reply m w).1 × (is_ok (conclude s url receipt reply m w).0 ≡ true)
  unfolding conclude
  conclude-removes reply m w h = grind (arith, delete_returns w, delete_removes w)

  update_final_status-Keeps : (id : String) (m : Updates) → Keeps Q (update_final_status s url id m)
  unfolding update_final_status
  update_final_status-Keeps id m w q = grind (arith, update_keeps)

  pub finish_record-removes :
      (reply : Reply) (w : W) → Settles reply → Q (finish_record s url rt receipt reply w).1
  unfolding finish_record
  finish_record-removes reply w h = grind (arith, conclude-removes reply, update_final_status-Keeps)

-- A message whose processing settles it is gone afterwards. `Q` is any property of the outside
-- world, such as "the message with this receipt is not in the queue", that the deletion of the
-- receipt brings about and that the clock and status updates keep; status updates and the deletion
-- may fail, but do not panic. If the processing of the task comes back, from every world, with no
-- error and a result that asks for no retry, then `Q` holds after the record is handled.
pub handle_record-removes :
    {W : Type 0} (Q : W → Type 0) (s : Service W) (url : String) (rt : Runtime W)
    (process_fn : ProcessFn W) (receipt : String) (task : Task)
    → ((w : W) → Q w → Q (rt.now w).1)
    → ((id : String) (m : Updates) → Keeps Q (s.repository.update_task_status id m))
    → ((id : String) (m : Updates) → Returns (s.repository.update_task_status id m))
    → Returns (s.repository.delete_task_from_queue url receipt)
    → ((w : W) → Q (s.repository.delete_task_from_queue url receipt w).1)
    → ((w : W) → (reply : Reply) × ((process_fn task w).0 ≡ ok reply) × Settles reply)
    → (w : W)
    → Q
        (handle_record s url rt process_fn
          (record { task = some task; receipt_handle = receipt })
          w).1
unfolding handle_record
handle_record-removes Q s url rt process_fn receipt task now keep update delete removes settles w =
    let (at, w1) = rt.now w in
    let w2 = (s.repository.update_task_status task.id (in_progress at) w1).1 in
    let (reply, replied, settled) = settles w2 in
    ground (
      arith,
      update task.id (in_progress at) w1,
      replied,
      finish_record-removes Q s url rt receipt now keep delete removes reply (process_fn task w2).1
          settled,
    )

-- A round of the worker comes back with no error, whatever status updates and deletions fail, if
-- the service is initialised, the receiving succeeds, every received record has a task, processing
-- always replies, and neither status updates nor deletions panic.
pub pick_up-Succeeds :
    {W : Type 0} (s : Service W) (rt : Runtime W) (process_fn : ProcessFn W) (url : String)
    (records : List TaskWithReceipt) (w : W)
    → ((id : String) (m : Updates) → Returns (s.repository.update_task_status id m))
    → ((url receipt : String) → Returns (s.repository.delete_task_from_queue url receipt))
    → ((task : Task) → Succeeds (process_fn task))
    → s.context ≡ some url
    → (s.repository.pick_task_from_queue url w).0 ≡ ok records
    → All (λ r. r.task ≢ none) records
    → is_ok (pick_up_next_available_task s rt process_fn w).0 ≡ true
unfolding pick_up_next_available_task
pick_up-Succeeds s rt process_fn url records w update delete process init received tasks_there =
    ground (
      arith,
      handle_records-Succeeds s url rt process_fn update delete process records tasks_there
          (s.repository.pick_task_from_queue url w).1,
    )

-- Before `Init`, each operation of the service answers with `ErrDispatchTaskBeforeInit` and does
-- nothing to the outside world, whatever its arguments, a nil bucket included.
pub before_init :
    {W : Type 0} (s : Service W) (rt : Runtime W) (process_fn : ProcessFn W) (task : Task)
    (bucket : Option TaskBucket) (w : W)
    → s.context ≡ none
    → (update_task_bucket s bucket w ≡ (fail (tasks TasksError.dispatch_task_before_init), w))
      × (dispatch_task rt s task w ≡ (fail (tasks TasksError.dispatch_task_before_init), w))
      × (pick_up_next_available_task s rt process_fn w
          ≡ (fail (tasks TasksError.dispatch_task_before_init), w))
unfolding pick_up_next_available_task dispatch_task update_task_bucket
before_init s rt process_fn task bucket w h = (ground arith, ground arith, ground arith)

-- Once the service is initialised, a nil bucket makes `UpdateTaskBucket` panic on its empty-id
-- test, so that its nil test behind it never answers; a bucket with an empty id is refused; and for
-- any other bucket the outcome and the effect are those of the repository's upsert, its error
-- wrapped.
pub update_task_bucket-cases :
    {W : Type 0} (s : Service W) (url : String) (bucket : TaskBucket) (w : W)
    → s.context ≡ some url
    → (update_task_bucket s none w ≡ (panic, w))
      × (update_task_bucket s (some bucket) w ≡ (
          if str_eq bucket.id ""
          then (fail (GoError.plain "task bucket id cannot be empty"), w)
          else on_error
              (GoError.wrap "failed to update task bucket")
              (s.repository.upsert_task_bucket bucket)
              w))
unfolding update_task_bucket
update_task_bucket-cases s url bucket w h = (ground arith, ground arith)
