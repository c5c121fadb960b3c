-- ===== src/AppContext/Init.antt =====
-- pkg/api/adapters/appcontext/appcontext.go, `Init`, and config.go. The configuration manager, the
-- logger and the metrics are ajan's: they are parameters, as the SDK is. A context whose `Init`
-- fails is dropped, as both commands panic then.
use bfo.Common.{none, Map, Io, init_failed, join, pure, deref, on_error, ◌>>=◌, ◌>>◌}
use bfo.Tasks.Types.{TaskBucket, TaskStatus}
use bfo.Tasks.Types as Types
use bfo.Tasks.Service as Tasks
use bfo.Resources.Types.{ResourceInstanceState, ConfigResource}
use bfo.Adapters.Sdk.{Sdk}
use bfo.Adapters.DynamoDbEndpoint as DynamoDb
use bfo.Adapters.SqsEndpoint as Sqs
use bfo.Adapters.DynamoDbStore as Store
use bfo.Adapters.SqsQueue as Queue
use bfo.Adapters.Repository as Repo
use bfo.Adapters.Repository.{Repository, TaskJson, for_tasks}
use bfo.AppContext.{AppContext}

-- The fields that `Init` hands on.
pub record AppConfig : Type 0 where
  pub resources : Map ConfigResource
  pub dynamo_db_store : Store.Config
  pub sqs_queue : Queue.Config
  pub tasks : Types.Config

-- What `Init` asks of third-party code.
pub record Environment (W Item Cfg : Type 0) : Type 0 where
  pub load_defaults : Io W AppConfig
  pub new_logger_as_default : AppConfig → Io W (Unit {0})
  pub register_native_collectors : Io W (Unit {0})
  pub dynamo_db : Sdk W Cfg DynamoDb.EndpointResolver (Store.Client W Item)
  pub sqs : Sdk W Cfg Sqs.EndpointResolver (Queue.Client W)
  pub statuses : Store.Codec Item TaskStatus
  pub buckets : Store.Codec Item TaskBucket
  pub states : Store.Codec Item ResourceInstanceState
  pub json : TaskJson

module _ {W Item Cfg : Type 0} (env : Environment W Item Cfg) where
  -- `fmt.Errorf("%w: %w", ErrInitFailed, err)`
  abbrev pub or_init_failed : {A : Type 0} → Io W A → Io W A
  or_init_failed = on_error (join init_failed)

  unfoldable pub new_repository :
      AppConfig → Store.Client W Item → Queue.Client W → Repository W Item
  new_repository config store queue = record {
    store = store;
    queue_config = config.sqs_queue;
    queue = queue;
    statuses = env.statuses;
    buckets = env.buckets;
    states = env.states;
    json = env.json;
  }

  -- The repository and the services; the resources service stays unset, as its code is commented
  -- out, and `tasks.Service.Init` returns no error.
  unfoldable pub init : Io W (Repository W Item × AppContext W)
  init = do
    config ← or_init_failed env.load_defaults
    or_init_failed (env.new_logger_as_default config)
    or_init_failed env.register_native_collectors
    store ← or_init_failed (Store.init env.dynamo_db config.dynamo_db_store)
    opened ← or_init_failed (Queue.init env.sqs config.sqs_queue)
    let repository = new_repository config store opened.0
    or_init_failed (Repo.init repository)
    task_queue_url ← deref opened.1
    pure (
      repository,
      record {
        tasks = Tasks.init (Tasks.new_service config.tasks (for_tasks repository)) task_queue_url;
        resources = none;
      },
    )
