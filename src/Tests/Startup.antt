-- ===== src/Tests/Startup.antt =====
-- The theorems on the start of the application and its event loop at concrete inputs.
use bfo.Common.{
  ◌≡◌, refl, true, ok, fail, panic, none, some, [], ◌∷◌, plain, raise, pure, init_failed, join,
  wrap, Bool,
}
use bfo.Tasks.Service as Tasks
use bfo.Adapters.DynamoDbStore as Store
use bfo.Adapters.SqsQueue as Queue
use bfo.Adapters.Repository as Repo
use bfo.Adapters.Repository.{Repository, for_tasks, pick_task_from_queue}
use bfo.AppContext.{AppContext}
use bfo.AppContext.Init.{Environment, new_repository, init}
use bfo.AppContext.Startup.{is_init_failed, init_errors}
use bfo.Commands.{event_loop}
use bfo.Commands.EventLoop.{event_loop-unset, event_loop_unset-Keeps}
use bfo.Tests.{World, start, rt, service_a, record_a}
use bfo.Tests.Intake.{repository_b, ready_store, no_codec, queue_a}

abbrev one_message : Queue.Client World
one_message = record queue_a {
  receive_message = λ url most wait visible.
      pure ((record { body = some "{}"; receipt_handle = some "r1" }) ∷ []);
}

abbrev env_a : Environment World (Unit {0}) (Unit {0})
env_a = record {
  load_defaults = pure (record {
    resources = [];
    dynamo_db_store = record {
      connection_endpoint = "";
      connection_profile = "";
      connection_region = "";
    };
    sqs_queue = repository_b.queue_config;
    tasks = service_a.config;
  });
  new_logger_as_default = λ config. pure tt;
  register_native_collectors = pure tt;
  dynamo_db = record {
    load_default_config = λ options. pure tt;
    new_from_config = λ cfg rs. ready_store;
  };
  sqs = record {
    load_default_config = λ options. pure tt;
    new_from_config = λ cfg rs. one_message;
  };
  statuses = no_codec;
  buckets = no_codec;
  states = no_codec;
  json = repository_b.json;
}

abbrev no_profile : Environment World (Unit {0}) (Unit {0})
no_profile = record env_a {
  sqs = record {
    load_default_config = λ options. raise (plain "no profile");
    new_from_config = λ cfg rs. one_message;
  };
}

abbrev repository_c : Repository World (Unit {0})
repository_c = record repository_b { store = ready_store; queue = one_message }

abbrev context_c : AppContext World
context_c = record {
  tasks = record {
    config = service_a.config;
    context = some "url";
    repository = for_tasks repository_c;
  };
  resources = none;
}

started : (init env_a start).0 ≡ ok (repository_c, context_c)
unfolding init Store.init Queue.init Queue.create_queue_if_not_exists Queue.get_queue_url
    Queue.found_url Repo.init Store.ensure_table_exists new_repository Store.is_not_found
    Store.create_table Tasks.init Tasks.new_service for_tasks
started = refl

not_started :
    (init no_profile start).0
    ≡ fail (join init_failed (wrap "failed to load AWS SDK config" (plain "no profile")))
unfolding init Store.init Queue.init
not_started = refl

init_errors_example :
    is_init_failed (join init_failed (wrap "failed to load AWS SDK config" (plain "no profile")))
    ≡ true
init_errors_example =
    init_errors no_profile start
      (join init_failed (wrap "failed to load AWS SDK config" (plain "no profile"))) not_started

picked : (pick_task_from_queue repository_c "url" start).0 ≡ ok (record_a ∷ [])
unfolding pick_task_from_queue Queue.receive_messages Queue.received Repo.decode_messages
picked = refl

-- The context is done once a status is stored.
abbrev when_stored : World → Bool × World
when_stored w = (w.stored, w)

event_loop-unset_example : (event_loop rt context_c when_stored 3 start).0 ≡ panic
event_loop-unset_example =
    event_loop-unset env_a rt when_stored 2 start repository_c context_c "url" record_a [] start
      started refl refl picked

event_loop_unset-Keeps_example : (event_loop rt context_c when_stored 3 start).1.held ≡ true
unfolding pick_task_from_queue Queue.receive_messages Queue.received Repo.decode_messages
event_loop_unset-Keeps_example =
    event_loop_unset-Keeps (λ w. w.held ≡ true) env_a rt when_stored start repository_c context_c
      started (λ v p. p) (λ v p. p) (λ url v p. p) 3 start refl
