-- ===== src/Tests/Storage.antt =====
-- The theorems on the store and the queue at concrete inputs.
use bfo.Common.{
  ◌≡◌, refl, true, ok, fail, none, some, Option, List, String, [], ◌∷◌, external, ExternalKind,
  plain, pure, if◌then◌else◌, str_eq, ◌<>◌, error_text,
}
use bfo.Resources.Types.{ResourceInstanceState}
use bfo.Adapters.DynamoDbStore as Store
use bfo.Adapters.SqsQueue as Queue
use bfo.Adapters.SqsQueue.{
  RawMessage, non_existent_queue, create_queue_if_not_exists, get_queue_url, found_url,
  create_queue, has_suffix,
}
use bfo.Adapters.RoundTrip.{enqueue_task-pick}
use bfo.Adapters.StateTable.{
  Command, get, put, delete, States, changes, calls, Shows, calls-changes,
}
use bfo.Adapters.Repository.{Repository, enqueue_task, pick_task_from_queue}
use bfo.Tests.{World, start, task_a}
use bfo.Tests.Capacity.{state_a}
use bfo.Tests.Intake.{repository_b, no_codec, queue_a}

-- `stored` says whether the queue is there.
abbrev new_queue : Queue.Client World
new_queue = record queue_a {
  get_queue_url = λ name w. (
    if w.stored
        then ok (some "url")
        else fail (external ExternalKind.other ("sqs: " <> non_existent_queue)),
    w,
  );
  create_queue = λ name w. (ok (some "url"), record w { stored = true });
}

created_url : (create_queue_if_not_exists new_queue "q" start).0 ≡ ok (some "url")
unfolding create_queue_if_not_exists get_queue_url found_url create_queue has_suffix error_text
created_url = refl

-- The outside world of a queue with room for one body.
abbrev body_queue : Queue.Client (Option String)
body_queue = record {
  get_queue_url = λ name. pure (some "url");
  list_queues = pure [];
  create_queue = λ name. pure (some "url");
  send_message = λ url body w. (ok (some "id"), some body);
  receive_message = λ url most wait visible w. (
    elim w [
      | none ↦ ok []
      | some b ↦ ok ((record { body = some b; receipt_handle = some "r1" }) ∷ [])
    ],
    w,
  );
  delete_message = λ url receipt w. (ok tt, none);
}

-- A store of states as a function from ids; the other tables are never read.
abbrev state_store :
    {W : Type 0} → (W → States) → ((States → States) → W → W) → Store.Client W ResourceInstanceState
state_store view change = record {
  describe_table = λ table. pure tt;
  create_table = λ table key. pure tt;
  wait_table_exists = λ table. pure tt;
  scan = λ table. pure [];
  get_item = λ table field id w. (ok (view w id), w);
  put_item = λ table item w.
      (ok tt, change (λ m id. if str_eq id item.resource_instance_id then some item else m id) w);
  delete_item =
      λ table field id w. (ok tt, change (λ m other. if str_eq other id then none else m other) w);
}

abbrev state_codec : Store.Codec ResourceInstanceState ResourceInstanceState
state_codec = record {
  marshal_map = λ a. ok a;
  unmarshal_map = λ item. ok item;
  unmarshal_list = λ items. ok items;
}

abbrev unread : {A : Type 0} → Store.Codec ResourceInstanceState A
unread = record {
  marshal_map = λ a. fail (plain "no table");
  unmarshal_map = λ item. fail (plain "no table");
  unmarshal_list = λ items. fail (plain "no table");
}

abbrev states_repository : Repository States ResourceInstanceState
states_repository = record {
  store = state_store (λ m. m) (λ change m. change m);
  queue_config = repository_b.queue_config;
  queue = record {
    get_queue_url = λ name. pure none;
    list_queues = pure [];
    create_queue = λ name. pure none;
    send_message = λ url body. pure none;
    receive_message = λ url most wait visible. pure [];
    delete_message = λ url receipt. pure tt;
  };
  statuses = unread;
  buckets = unread;
  states = state_codec;
  json = repository_b.json;
}

abbrev commands : List Command
commands = put state_a ∷ get "gpu" ∷ delete "gpu" ∷ get "gpu" ∷ []

abbrev no_states : States
no_states id = none

calls-changes_example :
    ((calls states_repository commands no_states).0 ≡ ok (none ∷ some state_a ∷ none ∷ none ∷ []))
    × Shows
        (λ m. m)
        (λ a. a)
        (calls states_repository commands no_states).1
        (changes commands no_states)
calls-changes_example =
    calls-changes states_repository (λ m. m) (λ a. a) (λ item. item.resource_instance_id)
      (λ a. refl) (λ a. refl) (λ a. refl) (λ w id. refl) (λ w id other. refl) (λ w item. refl)
      (λ w item other. refl) (λ w id. refl) (λ w id other. refl) commands no_states no_states
      (λ id. refl)

abbrev body_store : Store.Client (Option String) (Unit {0})
body_store = record {
  describe_table = λ table. pure tt;
  create_table = λ table key. pure tt;
  wait_table_exists = λ table. pure tt;
  scan = λ table. pure [];
  get_item = λ table field value. pure none;
  put_item = λ table item. pure tt;
  delete_item = λ table field value. pure tt;
}

abbrev body_repository : Repository (Option String) (Unit {0})
body_repository = record {
  store = body_store;
  queue_config = repository_b.queue_config;
  queue = body_queue;
  statuses = no_codec;
  buckets = no_codec;
  states = no_codec;
  json = repository_b.json;
}

enqueue_task-pick_example :
    ((enqueue_task body_repository "url" task_a none).0 ≡ ok tt)
    × ((pick_task_from_queue body_repository "url"
          (enqueue_task body_repository "url" task_a none).1).0
        ≡ ok ((record { task = some task_a; receipt_handle = "r1" }) ∷ []))
enqueue_task-pick_example =
    enqueue_task-pick body_repository "url" "{}" "id" "r1" task_a none refl refl refl refl
