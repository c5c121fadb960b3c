-- ===== src/Adapters/Intake.antt =====
-- pkg/api/adapters/repository/repository_tasks.go, `PickTaskFromQueue`, and dynamodb_store.go,
-- `EnsureTableExists`: what one unreadable message does to a round of the worker, and when a table
-- is created.
use bfo.Common.{
  ◌≡◌, true, ok, fail, String, List, [], ◌∷◌, ◌++◌, some, arith, is_ok, All, GoError, tasks,
  repository, join, TasksError, RepositoryError, Runtime, Succeeds,
}
use bfo.Tasks.Types.{Config}
use bfo.Tasks.Service.{ProcessFn}
use bfo.Tasks.Worker.{pick_up_next_available_task}
use bfo.Adapters.DynamoDbStore as Store
use bfo.Adapters.DynamoDbStore.{is_not_found, create_table, ensure_table_exists}
use bfo.Adapters.SqsQueue.{Message, receive_messages}
use bfo.Adapters.Repository.{TaskJson, Repository, decode_messages, pick_task_from_queue, for_tasks}

decode_messages-bad :
    (json : TaskJson) (before after : List Message) (m : Message) (e : GoError)
    → All (λ x. is_ok (json.unmarshal x.body) ≡ true) before
    → json.unmarshal m.body ≡ fail e
    → decode_messages json (before ++ m ∷ after)
      ≡ fail (join (repository RepositoryError.failed_to_unmarshal_task) e)
unfolding decode_messages
decode_messages-bad json [] after m e fine bad = ground arith
decode_messages-bad json (x ∷ before) after m e fine bad =
    ground (arith, decode_messages-bad json before after m e fine.1 bad)

-- One message that cannot be read as a task ends the round for all that were received with it,
-- those before it included: if the receiving gives messages of which the first ones can be read
-- and the next cannot, with error `e`, then the round answers with `ErrFailedToReceiveMessages`
-- joined with `ErrFailedToUnmarshalTask` joined with `e`, and nothing is done after the receiving.
pub pick_up-bad_body :
    {W Item : Type 0} (r : Repository W Item) (config : Config) (url : String) (rt : Runtime W)
    (process_fn : ProcessFn W) (before after : List Message) (m : Message) (e : GoError) (w w1 : W)
    → receive_messages r.queue_config r.queue url w ≡ (ok (before ++ m ∷ after), w1)
    → All (λ x. is_ok (r.json.unmarshal x.body) ≡ true) before
    → r.json.unmarshal m.body ≡ fail e
    → pick_up_next_available_task
        (record { config = config; context = some url; repository = for_tasks r })
        rt
        process_fn
        w
      ≡ (
        fail (
            join
              (tasks TasksError.failed_to_receive_messages)
              (join (repository RepositoryError.failed_to_unmarshal_task) e)),
        w1,
      )
unfolding pick_up_next_available_task for_tasks pick_task_from_queue
pick_up-bad_body r config url rt process_fn before after m e w w1 received fine bad =
    ground (arith, received, decode_messages-bad r.json before after m e fine bad)

-- A success of `EnsureTableExists` means that the table is there: `Exists` is a property of the
-- outside world that holds where describing the table or waiting for it comes back with no error;
-- then it holds wherever the call comes back with no error.
pub ensure_table_exists_sound :
    {W Item : Type 0} (Exists : W → Type 0) (client : Store.Client W Item) (table key : String)
    (w : W)
    → ((v : W)
        → (client.describe_table table v).0 ≡ ok tt
        → Exists (client.describe_table table v).1)
    → ((v : W)
        → (client.wait_table_exists table v).0 ≡ ok tt
        → Exists (client.wait_table_exists table v).1)
    → (ensure_table_exists client table key w).0 ≡ ok tt
    → Exists (ensure_table_exists client table key w).1
unfolding ensure_table_exists create_table
ensure_table_exists_sound Exists client table key w described waited done =
    grind (arith, described, waited)

-- A table that is missing is created: if describing it fails with an error whose chain holds a
-- `ResourceNotFoundException`, and creating it and waiting for it succeed, the call succeeds.
pub ensure_table_exists_creates :
    {W Item : Type 0} (client : Store.Client W Item) (table key : String) (e : GoError) (w : W)
    → (client.describe_table table w).0 ≡ fail e
    → is_not_found e ≡ true
    → Succeeds (client.create_table table key)
    → Succeeds (client.wait_table_exists table)
    → is_ok (ensure_table_exists client table key w).0 ≡ true
unfolding ensure_table_exists create_table
ensure_table_exists_creates client table key e w described missing create wait =
    grind (arith, create, wait)
