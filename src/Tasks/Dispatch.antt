-- ===== src/Tasks/Dispatch.antt =====
-- pkg/api/business/tasks/service.go, `DispatchTask`: the task that is queued, and the order of the
-- status and the message.
use bfo.Common.{
  ap, Res-cases, returned, failed, panicked, sym, String, some, ◌≡◌, ◌≢◌, arith, ok, fail, GoError,
  tasks, join, TasksError, Runtime, Succeeds, eq_iff,
}
use bfo.Tasks.Types.{Task, TaskStatus}
use bfo.Tasks.Service.{Service, fill_task, submit_task, dispatch_task}
use bfo.Tasks.Delivery.{Keeps}

-- What `DispatchTask` makes of a task: the gaps are filled and all else is as it was given.
pub record Fills (task t : Task) : Type 0 where
  pub has_id : t.id ≢ ""
  pub has_created_at : t.created_at ≢ 0
  pub has_max_tokens : t.max_tokens ≢ 0
  pub keeps_id : task.id ≢ "" → t.id ≡ task.id
  pub keeps_created_at : task.created_at ≢ 0 → t.created_at ≡ task.created_at
  pub keeps_max_tokens : task.max_tokens ≢ 0 → t.max_tokens ≡ task.max_tokens
  pub keeps_bucket_id : t.bucket_id ≡ task.bucket_id
  pub keeps_model : t.model ≡ task.model
  pub keeps_messages : t.messages ≡ task.messages
  pub keeps_estimate : t.estimated_input_tokens ≡ task.estimated_input_tokens
  pub keeps_priority : t.priority ≡ task.priority
  pub keeps_sla : t.sla ≡ task.sla

fill_task-Fills :
    {W : Type 0} (rt : Runtime W) (s : Service W) (task t : Task) (w : W)
    → ((w : W) → (rt.now w).0 ≢ 0)
    → ((w : W) → (rt.unique_id w).0 ≢ "")
    → s.config.default_max_tokens ≢ 0
    → (fill_task rt s task w).0 ≡ ok t
    → Fills task t
unfolding fill_task
fill_task-Fills rt s task t w now id limit e =
    ground (arith, eq_iff task.id "", now w, now (rt.unique_id w).1, id w)

-- A submission that succeeds ends with the sending of its task.
pub submit_task-sends :
    {W : Type 0} (Q : W → Type 0) (rt : Runtime W) (s : Service W) (url : String) (task : Task)
    (w : W)
    → ((v : W)
        → (s.repository.enqueue_task url task v).0 ≡ ok tt
        → Q (s.repository.enqueue_task url task v).1)
    → (submit_task rt s url task w).0 ≡ ok tt
    → Q (submit_task rt s url task w).1
unfolding submit_task
submit_task-sends Q rt s url task w sends done = grind (arith, sends)

submit_task-enqueues :
    {W : Type 0} (rt : Runtime W) (s : Service W) (url : String) (task : Task) (w : W)
    → (submit_task rt s url task w).0 ≡ ok tt
    → (v : W) × (s.repository.enqueue_task url task v ≡ (ok tt, (submit_task rt s url task w).1))
submit_task-enqueues {W} rt s url task w done =
    submit_task-sends (λ u. (v : W) × (s.repository.enqueue_task url task v ≡ (ok tt, u))) rt s url
      task w (λ v e. (v, ap (λ r. (r, (s.repository.enqueue_task url task v).1)) e)) done

-- The task that is queued has an id, a creation time and a token limit: if dispatching on an
-- initialised service succeeds, then it ends with the sending of one task, which succeeds, and
-- which is the task that the caller gets back; those of its id, time and limit that it was given
-- are kept, and so are its bucket, model, messages, estimate, priority and SLA. The clock never
-- shows the zero time, generated ids are not empty, and the configured default limit is not 0.
pub dispatch_task-Fills :
    {W : Type 0} (rt : Runtime W) (s : Service W) (url : String) (task t : Task) (w : W)
    → ((w : W) → (rt.now w).0 ≢ 0)
    → ((w : W) → (rt.unique_id w).0 ≢ "")
    → s.config.default_max_tokens ≢ 0
    → s.context ≡ some url
    → (dispatch_task rt s task w).0 ≡ ok t
    → Fills task t
      × ((v : W) × (s.repository.enqueue_task url t v ≡ (ok tt, (dispatch_task rt s task w).1)))
unfolding dispatch_task
dispatch_task-Fills rt s url task t w now id limit init e =
    elim (Res-cases (fill_task rt s task w).0) [
      | returned filled f ↦
          elim (Res-cases (submit_task rt s url filled (fill_task rt s task w).1).0) [
            | returned _ g ↦
                let same : filled ≡ t = ground (arith, init, f, g) in
                let (v, sent) = submit_task-enqueues rt s url filled (fill_task rt s task w).1 g in
                (
                  fill_task-Fills rt s task t w now id limit (rw (sym same) f),
                  (v, ground (arith, init, f, g, same, sent)),
                )
            | failed err g ↦ absurd (ground (arith, init, f, g))
            | panicked g ↦ absurd (ground (arith, init, f, g))
          ]
      | failed err f ↦ absurd (ground (arith, init, f))
      | panicked f ↦ absurd (ground (arith, init, f))
    ]

submit_task-stored :
    {W : Type 0} (Q : W → Type 0) (rt : Runtime W) (s : Service W) (url : String) (task : Task)
    (w : W)
    → ((status : TaskStatus) → Succeeds (s.repository.put_task_status status))
    → ((status : TaskStatus) (w : W)
        → status.task_id ≡ task.id
        → status.status ≡ "pending_queue"
        → Q (s.repository.put_task_status status w).1)
    → Keeps Q (s.repository.enqueue_task url task)
    → Q (submit_task rt s url task w).1
unfolding submit_task
submit_task-stored Q rt s url task w put stores keep = grind (arith, put, stores, keep)

submit_task-unsent :
    {W : Type 0} (rt : Runtime W) (s : Service W) (url : String) (task : Task) (e : GoError) (w : W)
    → ((status : TaskStatus) → Succeeds (s.repository.put_task_status status))
    → ((w : W) → (s.repository.enqueue_task url task w).0 ≡ fail e)
    → (submit_task rt s url task w).0 ≡ fail (join (tasks TasksError.failed_to_send_message) e)
unfolding submit_task
submit_task-unsent rt s url task e w put fails = grind (arith, put, fails)

fill_task-Succeeds :
    {W : Type 0} (rt : Runtime W) (s : Service W) (task : Task) → Succeeds (fill_task rt s task)
unfolding fill_task
fill_task-Succeeds rt s task w = ground arith

-- The status is stored before the message is sent, and stays stored where the sending fails: if
-- storing a status always succeeds, storing one with the text "pending_queue" brings about `Q`, and
-- sending keeps `Q`, then `Q` holds after dispatching on an initialised service, however it ends.
pub dispatch_task_stored :
    {W : Type 0} (Q : W → Type 0) (rt : Runtime W) (s : Service W) (url : String) (task : Task)
    (w : W)
    → s.context ≡ some url
    → ((status : TaskStatus) → Succeeds (s.repository.put_task_status status))
    → ((status : TaskStatus) (v : W)
        → status.status ≡ "pending_queue"
        → Q (s.repository.put_task_status status v).1)
    → ((t : Task) → Keeps Q (s.repository.enqueue_task url t))
    → Q (dispatch_task rt s task w).1
unfolding dispatch_task
dispatch_task_stored {W} Q rt s url task w init put stores keep = grind (
  arith,
  fill_task-Succeeds rt s task w,
  λ (t : Task) (v : W).
      submit_task-stored Q rt s url t v put (λ status v' _. stores status v') (keep t),
)

-- A message that cannot be sent is reported as such: if storing a status always succeeds and
-- sending fails with `e`, dispatching on an initialised service answers with
-- `ErrFailedToSendMessage` joined with `e`.
pub dispatch_task_unsent :
    {W : Type 0} (rt : Runtime W) (s : Service W) (url : String) (task : Task) (e : GoError) (w : W)
    → s.context ≡ some url
    → ((status : TaskStatus) → Succeeds (s.repository.put_task_status status))
    → ((t : Task) (v : W) → (s.repository.enqueue_task url t v).0 ≡ fail e)
    → (dispatch_task rt s task w).0 ≡ fail (join (tasks TasksError.failed_to_send_message) e)
unfolding dispatch_task
dispatch_task_unsent {W} rt s url task e w init put fails = grind (
  arith,
  fill_task-Succeeds rt s task w,
  λ (t : Task) (v : W). submit_task-unsent rt s url t e v put (fails t),
)
