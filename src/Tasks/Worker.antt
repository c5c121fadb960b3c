-- ===== src/Tasks/Worker.antt =====
-- pkg/api/business/tasks/service.go, `PickUpNextAvailableTask`: the loop over the received records.
use bfo.Common.{
  ℕ, suc, String, Option, none, some, List, [], ◌∷◌, ltb, if◌then◌else◌, Io, GoError, tasks, join,
  TasksError, error_text, pure, always, deref, on_error, catch_error, ◌>>=◌, ◌>>◌, insert, Runtime,
  Time,
}
use bfo.Tasks.Types.{TaskWithReceipt, time, string, Updates}
use bfo.Tasks.Service.{
  TaskResult, success, message_temporarily_failed, message_permanently_failed,
  system_temporarily_failed, system_permanently_failed, code, Service, Reply, ProcessFn, queue_url,
}

abbrev pub size : Updates → ℕ
size [] = 0
size (_ ∷ m) = suc (size m)

abbrev pub set_status : String → Updates → Updates
set_status status m = insert "Status" (string status) m

abbrev pub in_progress : Time → Updates
in_progress now = ("Status", string "in_progress_worker") ∷ ("UpdatedAt", time now) ∷ []

module _ {W : Type 0} (s : Service W) (url : String) where
  -- A deletion that fails is logged and passed over.
  abbrev pub delete_message : String → Io W (Option GoError)
  delete_message receipt = catch_error (s.repository.delete_task_from_queue url receipt)

  -- The `switch taskResult`, on the updates collected so far; the last clauses are `default`.
  unfoldable pub conclude_result : String → TaskResult → Updates → Io W Updates
  conclude_result receipt success m = do delete_message receipt; pure m
  conclude_result receipt system_temporarily_failed m =
      pure (set_status "retrying_worker_system_failure" m)
  conclude_result receipt message_temporarily_failed m =
      pure (set_status "retrying_worker_message_failure" m)
  conclude_result receipt message_permanently_failed m = do
    delete_message receipt
    pure (set_status "failed_worker_message_permanent" m)
  conclude_result receipt system_permanently_failed m = do
    delete_message receipt
    pure (set_status "failed_worker_unknown_result" m)
  conclude_result receipt (code _) m = do
    delete_message receipt
    pure (set_status "failed_worker_unknown_result" m)

  -- `if processErr != nil`, and the switch otherwise.
  unfoldable pub conclude : String → Reply → Updates → Io W Updates
  unfolding conclude_result
  conclude receipt reply m = elim reply.error [
    | some e ↦
        pure (insert "LastError" (string (error_text e)) (set_status "failed_worker_processing" m))
    | none ↦ conclude_result receipt reply.result m
  ]

  -- The final update is sent only if it holds more than the time.
  unfoldable pub update_final_status : String → Updates → Io W (Option GoError)
  update_final_status task_id m =
      if ltb 1 (size m) then catch_error (s.repository.update_task_status task_id m) else pure none

  -- What the loop does with a reply.
  unfoldable pub finish_record : Runtime W → String → Reply → Io W (Unit {0})
  unfolding conclude update_final_status
  finish_record rt receipt reply = do
    now ← always rt.now
    updates ← conclude receipt reply (("UpdatedAt", time now) ∷ [])
    update_final_status reply.task.id updates
    pure tt

  -- The body of the loop. `process_fn` has the task by reference, so what follows reads the task
  -- as it was left.
  unfoldable pub handle_record : Runtime W → ProcessFn W → TaskWithReceipt → Io W (Unit {0})
  unfolding finish_record
  handle_record rt process_fn record_ = do
    task ← deref record_.task
    now ← always rt.now
    catch_error (s.repository.update_task_status task.id (in_progress now))
    reply ← process_fn task
    finish_record rt record_.receipt_handle reply

  unfoldable pub handle_records : Runtime W → ProcessFn W → List TaskWithReceipt → Io W (Unit {0})
  handle_records rt process_fn [] = pure tt
  handle_records rt process_fn (r ∷ rs) =
      handle_record rt process_fn r >> handle_records rt process_fn rs

unfoldable pub pick_up_next_available_task :
    {W : Type 0} → Service W → Runtime W → ProcessFn W → Io W (Unit {0})
pick_up_next_available_task s rt process_fn = do
  url ← queue_url s
  records ←
      on_error (join (tasks TasksError.failed_to_receive_messages))
        (s.repository.pick_task_from_queue url)
  handle_records s url rt process_fn records
