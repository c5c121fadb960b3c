-- ===== src/Tasks/Service.antt =====
-- pkg/api/business/tasks/service.go: the service that queues tasks and works through the queue.
-- The repository is the interface of the source; logging is left out.
use bfo.Common.{
  ℕ, String, Option, none, some, List, if◌then◌else◌, ◌==◌, str_eq, Io, GoError, tasks, plain, wrap,
  join, TasksError, ◌<>◌, pure, raise, always, deref, on_error, ◌>>=◌, ◌>>◌, Runtime,
}
use bfo.Tasks.Types.{TaskBucket, Task, TaskWithReceipt, TaskStatus, Updates, Config}

-- The constants are the numbers 0 to 4; `code` is any other value of the integer type.
pub data TaskResult : Type 0 where
  success : TaskResult
  message_temporarily_failed : TaskResult
  message_permanently_failed : TaskResult
  system_temporarily_failed : TaskResult
  system_permanently_failed : TaskResult
  code : ℕ → TaskResult

pub record Repository (W : Type 0) : Type 0 where
  pub get_task_status : String → Io W (Option TaskStatus)
  pub put_task_status : TaskStatus → Io W (Unit {0})
  pub update_task_status : String → Updates → Io W (Unit {0})
  pub enqueue_task : String → Task → Io W (Unit {0})
  pub pick_task_from_queue : String → Io W (List TaskWithReceipt)
  pub delete_task_from_queue : String → String → Io W (Unit {0})
  pub upsert_task_bucket : TaskBucket → Io W (Unit {0})

pub record Service (W : Type 0) : Type 0 where
  pub config : Config
  -- the queue's url, which `Init` stores
  pub context : Option String
  pub repository : Repository W

-- What a process function leaves behind: the task as it changed it, its result and its error.
pub record Reply : Type 0 where
  pub task : Task
  pub result : TaskResult
  pub error : Option GoError

-- The `error` of the Go function stands in the reply.
abbrev pub ProcessFn : Type 0 → Type 0
ProcessFn W = Task → Io W Reply

module _ {W : Type 0} where
  unfoldable pub new_service : Config → Repository W → Service W
  new_service config repository = record {
    config = config;
    context = none;
    repository = repository;
  }

  unfoldable pub init : Service W → String → Service W
  init s task_queue_url = record s { context = some task_queue_url }

  abbrev pub queue_url : Service W → Io W String
  queue_url s = elim s.context [
    | none ↦ raise (tasks TasksError.dispatch_task_before_init)
    | some url ↦ pure url
  ]

  -- `taskBucket.Id` is read before `taskBucket` is compared with nil, so nil panics there.
  unfoldable pub update_task_bucket : Service W → Option TaskBucket → Io W (Unit {0})
  update_task_bucket s task_bucket = do
    queue_url s
    bucket ← deref task_bucket
    if str_eq bucket.id ""
        then raise (plain "task bucket id cannot be empty")
        else on_error (wrap "failed to update task bucket") (s.repository.upsert_task_bucket bucket)

module _ {W : Type 0} (rt : Runtime W) where
  -- the id and the time that a task gets where it has none
  unfoldable pub with_id : Task → Io W Task
  with_id task =
      if str_eq task.id ""
      then (do id ← always rt.unique_id; pure (record task { id = id }))
      else pure task

  unfoldable pub with_created_at : Task → Io W Task
  with_created_at task =
      if task.created_at == 0
      then (do now ← always rt.now; pure (record task { created_at = now }))
      else pure task

  -- The gaps of the task are filled, as `DispatchTask` begins.
  unfoldable pub fill_task : Service W → Task → Io W Task
  unfolding with_id with_created_at
  fill_task s task = do
    task ← with_id task
    task ← with_created_at task
    let max_tokens = if task.max_tokens == 0 then s.config.default_max_tokens else task.max_tokens
    pure (record task { max_tokens = max_tokens })

  -- The initial status is stored, and the message is sent: the rest of `DispatchTask`.
  unfoldable pub submit_task : Service W → String → Task → Io W (Unit {0})
  submit_task s url task = do
    now ← always rt.now
    on_error (wrap ("failed to create initial task status for " <> task.id)) (
        s.repository.put_task_status (record {
          created_at = task.created_at;
          updated_at = now;
          task_id = task.id;
          status = "pending_queue";
          resource_instance_id = "";
          batch_id = "";
          last_error = "";
          output = "";
          retries = 0;
          version = 1;
        }))
    on_error (join (tasks TasksError.failed_to_send_message)) (s.repository.enqueue_task url task)

  -- `DispatchTask`; the result is the task as the call changed it.
  unfoldable pub dispatch_task : Service W → Task → Io W Task
  dispatch_task s task = do
    url ← queue_url s
    task ← fill_task s task
    submit_task s url task
    pure task
