-- ===== src/Resources/Dispatch.antt =====
-- pkg/api/business/resources/service.go: `DispatchTask`, which books a task on a resource, and
-- `TryProcessTask`. The input file's text is only logged, and is left out.
use bfo.Common.{
  String, Option, none, some, [], ◌∷◌, add64, sub64, Io, plain, wrap, ◌<>◌, pure, raise, Res, ok,
  fail, panic, Time, always, deref, crash, on_error, catch_error, ◌>>=◌, ◌>>◌, Runtime,
}
use bfo.Tasks.Types.{Task}
use bfo.Tasks.Service.{Reply, success, system_temporarily_failed, with_id, with_created_at}
use bfo.Resources.Types.{ResourceInstanceState, CreateBatchRequest, Batch, Provider}
use bfo.Resources.Service.{Service, token_need, find_best_available_resource}

unfoldable pub batch_request : String → Task → CreateBatchRequest
batch_request resource_key task = record {
  metadata = ("task_id", task.id) ∷ ("resource_key", resource_key) ∷ [];
  input_file_id = "fake-input-file-id-" <> task.id;
  endpoint = "/v1/chat/completions";
  completion_window = "24h";
}

-- the state that is stored before the provider is called
unfoldable pub book : Task → Time → ResourceInstanceState → ResourceInstanceState
book task now state = record state {
  active_batches = add64 state.active_batches 1;
  current_token_load = add64 state.current_token_load (token_need task);
  last_activity_time = now;
  version = add64 state.version 1;
}

-- the state that is stored when the provider has refused
unfoldable pub unbook : Task → ResourceInstanceState → ResourceInstanceState
unbook task state = record state {
  active_batches = sub64 state.active_batches 1;
  current_token_load = sub64 state.current_token_load (token_need task);
  version = add64 state.version 1;
}

module _ {W : Type 0} (rt : Runtime W) (s : Service W) where
  -- What follows the provider's answer; a rollback that fails is logged and passed over. The id of
  -- the batch is logged, so a nil batch panics.
  unfoldable pub settle_batch : Task → ResourceInstanceState → Res (Option Batch) → Io W Batch
  settle_batch task booked (ok batch) = deref batch
  settle_batch task booked (fail e) = do
    catch_error (s.repository.put_resource_instance_state (unbook task booked))
    raise (wrap ("failed to create batch for task " <> task.id) e)
  settle_batch task booked panic = crash

  unfoldable pub create_batch : Provider W → String → Task → ResourceInstanceState → Io W Batch
  create_batch provider resource_key task booked w =
      let (r, w') = provider.create_batch (batch_request resource_key task) w in
      settle_batch task booked r w'

  unfoldable pub dispatch_task : String → Provider W → Task → Io W Batch
  dispatch_task resource_key provider task = do
    read ←
        on_error (wrap ("failed to get resource state for " <> resource_key))
          (s.repository.get_resource_instance_state resource_key)
    state ← deref read
    now ← always rt.now
    on_error (wrap ("failed to update resource state for " <> resource_key))
        (s.repository.put_resource_instance_state (book task now state))
    create_batch provider resource_key task (book task now state)

  -- The end of `TryProcessTask`, once a resource was found or not.
  unfoldable pub dispatch_reply : Task → Option (Provider W × String) → Io W Reply
  dispatch_reply task none = pure (record {
    task = task;
    result = system_temporarily_failed;
    error = some (
        wrap ("failed to find available resource for task " <> task.id)
          (plain ("no suitable resource found for task Id '" <> task.id <> "'")));
  })
  dispatch_reply task (some (provider, resource_key)) = do
    e ← catch_error (dispatch_task resource_key provider task)
    pure (elim e [
      | none ↦ record { task = task; result = success; error = none }
      | some err ↦ record {
        task = task;
        result = system_temporarily_failed;
        error = some (wrap ("failed to dispatch task " <> task.id) err);
      }
    ])

  unfoldable pub try_process_task : Task → Io W Reply
  unfolding with_id with_created_at
  try_process_task task = do
    task ← with_id rt task
    task ← with_created_at rt task
    found ← find_best_available_resource rt s task
    dispatch_reply found.0 found.1
