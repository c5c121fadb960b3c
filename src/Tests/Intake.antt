-- ===== src/Tests/Intake.antt =====
-- The theorems on the adapters at concrete inputs.
use bfo.Common.{
  arith, ◌≡◌, refl, true, ok, fail, none, some, [], ◌∷◌, ◌++◌, tasks, repository, external, join,
  plain, TasksError, RepositoryError, ExternalKind, pure, str_eq, if◌then◌else◌,
}
use bfo.Tasks.Worker.{pick_up_next_available_task}
use bfo.Adapters.DynamoDbStore as Store
use bfo.Adapters.DynamoDbStore.{Codec, is_not_found, ensure_table_exists}
use bfo.Adapters.SqsQueue as Queue
use bfo.Adapters.SqsQueue.{Message, RawMessage, receive_messages, received, copy_messages}
use bfo.Adapters.Repository.{Repository, for_tasks}
use bfo.Adapters.Intake.{pick_up-bad_body, ensure_table_exists_sound}
use bfo.Tests.{World, start, rt, task_a, service_a, success_reply}

-- A store in which `stored` says whether the one table is there.
abbrev table_store : Store.Client World (Unit {0})
table_store = record {
  describe_table = λ table w.
      (if w.stored then ok tt else fail (external ExternalKind.resource_not_found "no table"), w);
  create_table = λ table key w. (ok tt, record w { stored = true });
  wait_table_exists =
      λ table w. (if w.stored then ok tt else fail (external ExternalKind.other "timeout"), w);
  scan = λ table. pure [];
  get_item = λ table field value. pure none;
  put_item = λ table item. pure tt;
  delete_item = λ table field value. pure tt;
}

abbrev raw_good : RawMessage
raw_good = record { body = some "{}"; receipt_handle = some "r1" }

abbrev raw_bad : RawMessage
raw_bad = record { body = some "{"; receipt_handle = some "r2" }

abbrev pub queue_a : Queue.Client World
queue_a = record {
  get_queue_url = λ name. pure (some "url");
  list_queues = pure [];
  create_queue = λ name. pure (some "url");
  send_message = λ url body. pure (some "id");
  receive_message = λ url most wait visible. pure (raw_good ∷ raw_bad ∷ []);
  delete_message = λ url receipt. pure tt;
}

abbrev pub no_codec : {A : Type 0} → Codec (Unit {0}) A
no_codec = record {
  marshal_map = λ a. ok tt;
  unmarshal_map = λ item. fail (plain "no attributes");
  unmarshal_list = λ items. fail (plain "no attributes");
}

abbrev pub repository_b : Repository World (Unit {0})
repository_b = record {
  store = table_store;
  queue_config = record {
    connection_endpoint = "";
    connection_profile = "";
    connection_region = "";
    task_queue_name = "test-queue";
    max_number_of_messages = 10;
    wait_time_seconds = 10;
    visibility_timeout = 30;
  };
  queue = queue_a;
  statuses = no_codec;
  buckets = no_codec;
  states = no_codec;
  json = record {
    marshal = λ t. ok "{}";
    unmarshal = λ s.
        if str_eq s "{}" then ok (some task_a) else fail (plain "unexpected end of JSON input");
  };
}

abbrev good : Message
good = record { body = "{}"; receipt_handle = "r1" }

abbrev bad : Message
bad = record { body = "{"; receipt_handle = "r2" }

received_both :
    receive_messages repository_b.queue_config queue_a "url" start
    ≡ (ok ((good ∷ []) ++ bad ∷ []), start)
unfolding receive_messages received copy_messages
received_both = refl

pick_up-bad_body_example :
    pick_up_next_available_task
      (record {
        config = service_a.config;
        context = some "url";
        repository = for_tasks repository_b;
      })
      rt
      (λ t. pure (success_reply t))
      start
    ≡ (
      fail (
          join (tasks TasksError.failed_to_receive_messages) (
            join
              (repository RepositoryError.failed_to_unmarshal_task)
              (plain "unexpected end of JSON input"))),
      start,
    )
pick_up-bad_body_example =
    pick_up-bad_body repository_b service_a.config "url" rt (λ t. pure (success_reply t))
      (good ∷ []) [] bad (plain "unexpected end of JSON input") start start received_both (refl, tt)
      refl

created : (ensure_table_exists table_store "task_buckets" "id" start).0 ≡ ok tt
unfolding ensure_table_exists is_not_found Store.create_table
created = refl

ensure_table_exists_sound_example :
    (ensure_table_exists table_store "task_buckets" "id" start).1.stored ≡ true
ensure_table_exists_sound_example =
    ensure_table_exists_sound (λ w. w.stored ≡ true) table_store "task_buckets" "id" start
      (λ v e. ground arith) (λ v e. ground arith) created

abbrev pub ready_store : Store.Client World (Unit {0})
ready_store = record table_store { wait_table_exists = λ table w. (ok tt, w) }
