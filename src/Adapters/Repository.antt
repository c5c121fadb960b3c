-- ===== src/Adapters/Repository.antt =====
-- pkg/api/adapters/repository: the repository over the store and the queue, which implements the
-- interfaces of both services. JSON and attribute marshalling are parameters. Logging is left out.
use bfo.Common.{
  String, Option, none, some, List, [], ◌∷◌, Io, Res, ok, fail, panic, tasks, repository, wrap,
  join, TasksError, RepositoryError, ◌<>◌, pure, raise, lift, on_error, ◌>>=◌,
}
use bfo.Tasks.Types.{TaskBucket, Task, TaskWithReceipt, TaskStatus, Updates}
use bfo.Tasks.Service as Tasks
use bfo.Resources.Service as Resources
use bfo.Resources.Types.{ResourceInstanceState}
use bfo.Adapters.DynamoDbStore as Store
use bfo.Adapters.DynamoDbStore.{
  Codec, ensure_table_exists, list_items, get_item, upsert_item, delete_item,
}
use bfo.Adapters.SqsQueue as Queue
use bfo.Adapters.SqsQueue.{Message, receive_messages}

-- `json.Marshal` and `json.Unmarshal` at `*Task`, where the text `null` gives nil.
pub record TaskJson : Type 0 where
  pub marshal : Task → Res String
  pub unmarshal : String → Res (Option Task)

pub record Repository (W Item : Type 0) : Type 0 where
  pub store : Store.Client W Item
  pub queue_config : Queue.Config
  pub queue : Queue.Client W
  pub statuses : Codec Item TaskStatus
  pub buckets : Codec Item TaskBucket
  pub states : Codec Item ResourceInstanceState
  pub json : TaskJson

-- One message of `PickTaskFromQueue`.
unfoldable pub decode_message : TaskJson → Message → Res TaskWithReceipt
decode_message json m = elim (json.unmarshal m.body) [
  | ok task ↦ ok (record { task = task; receipt_handle = m.receipt_handle })
  | fail e ↦ fail (join (repository RepositoryError.failed_to_unmarshal_task) e)
  | panic ↦ panic
]

-- Its loop: the first body that cannot be read fails the whole call.
unfoldable pub decode_messages : TaskJson → List Message → Res (List TaskWithReceipt)
unfolding decode_message
decode_messages json [] = ok []
decode_messages json (m ∷ ms) = elim (decode_message json m) [
  | ok r ↦ elim (decode_messages json ms) [ ok rs ↦ ok (r ∷ rs) | fail e ↦ fail e | panic ↦ panic ]
  | fail e ↦ fail e
  | panic ↦ panic
]

module _ {W Item : Type 0} (r : Repository W Item) where
  unfoldable pub init : Io W (Unit {0})
  init =
      on_error (wrap ("failed to ensure DynamoDb table " <> "task_buckets" <> " exists"))
        (ensure_table_exists r.store "task_buckets" "id")

  unfoldable pub list_task_buckets : Io W (List TaskBucket)
  list_task_buckets =
      on_error (wrap "failed to list task buckets") (list_items r.store r.buckets "task_buckets")

  unfoldable pub get_task_bucket : String → Io W (Option TaskBucket)
  get_task_bucket id =
      on_error (join (repository RepositoryError.failed_to_get_task_bucket))
        (get_item r.store r.buckets "task_buckets" "id" id)

  unfoldable pub upsert_task_bucket : TaskBucket → Io W (Unit {0})
  upsert_task_bucket item =
      on_error (wrap "failed to upsert task bucket")
        (upsert_item r.store r.buckets "task_buckets" item)

  unfoldable pub delete_task_bucket : String → Io W (Unit {0})
  delete_task_bucket id =
      on_error (wrap "failed to delete task bucket") (delete_item r.store "task_buckets" "id" id)

  unfoldable pub get_task_status : String → Io W (Option TaskStatus)
  get_task_status task_id = do
    found ←
        on_error (wrap "failed to get task status")
          (get_item r.store r.statuses "task_statuses" "TaskId" task_id)
    elim found [
      | none ↦ raise (tasks TasksError.task_status_not_found)
      | some status ↦ pure (some status)
    ]

  unfoldable pub put_task_status : TaskStatus → Io W (Unit {0})
  put_task_status status =
      on_error (wrap "failed to put task status")
        (upsert_item r.store r.statuses "task_statuses" status)

  -- The body of the function is commented out in the source: it updates nothing.
  unfoldable pub update_task_status : String → Updates → Io W (Unit {0})
  update_task_status task_id updates = pure tt

  unfoldable pub get_resource_instance_state : String → Io W (Option ResourceInstanceState)
  get_resource_instance_state id =
      on_error (wrap "failed to get resource instance state")
        (get_item r.store r.states "resource_states" "ResourceInstanceId" id)

  unfoldable pub put_resource_instance_state : ResourceInstanceState → Io W (Unit {0})
  put_resource_instance_state state =
      on_error (wrap "failed to put resource instance state")
        (upsert_item r.store r.states "resource_states" state)

  unfoldable pub delete_resource_instance_state : String → Io W (Unit {0})
  delete_resource_instance_state id =
      on_error (wrap "failed to delete resource instance state")
        (delete_item r.store "resource_states" "ResourceInstanceId" id)

  unfoldable pub enqueue_task : String → Task → Io W (Unit {0})
  enqueue_task queue_url task = do
    body ←
        on_error (join (repository RepositoryError.failed_to_marshal_task))
          (lift (r.json.marshal task))
    on_error (join (repository RepositoryError.failed_to_enqueue_task))
        (Queue.send_message r.queue queue_url body)

  unfoldable pub pick_task_from_queue : String → Io W (List TaskWithReceipt)
  pick_task_from_queue queue_url = do
    messages ←
        on_error (join (repository RepositoryError.failed_to_receive_messages))
          (receive_messages r.queue_config r.queue queue_url)
    lift (decode_messages r.json messages)

  unfoldable pub delete_task_from_queue : String → String → Io W (Unit {0})
  delete_task_from_queue queue_url receipt_handle =
      on_error (join (repository RepositoryError.failed_to_delete_message))
        (Queue.delete_message r.queue queue_url receipt_handle)

  -- The repository as the interface of each service.
  unfoldable pub for_tasks : Tasks.Repository W
  for_tasks = record {
    get_task_status = get_task_status;
    put_task_status = put_task_status;
    update_task_status = update_task_status;
    enqueue_task = enqueue_task;
    pick_task_from_queue = pick_task_from_queue;
    delete_task_from_queue = delete_task_from_queue;
    upsert_task_bucket = upsert_task_bucket;
  }

  unfoldable pub for_resources : Resources.Repository W
  for_resources = record {
    get_resource_instance_state = get_resource_instance_state;
    put_resource_instance_state = put_resource_instance_state;
  }
