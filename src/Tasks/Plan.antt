-- ===== src/Tasks/Plan.antt =====
-- pkg/api/business/tasks/service.go, `PickUpNextAvailableTask`: the calls of a round on the
-- repository, as a table of decisions gives them.
use bfo.Common.{String, Bool, true, false, Option, some, none, List, [], ◌∷◌, ◌++◌, GoError}
use bfo.Tasks.Types.{Task, TaskWithReceipt, UpdateValue, string}
use bfo.Tasks.Service.{
  TaskResult, success, message_temporarily_failed, message_permanently_failed,
  system_temporarily_failed, system_permanently_failed, code, Reply,
}

-- A call that changes the repository: a status update, with the text that it sets, or a deletion.
pub data Call : Type 0 where
  updated : String → Option UpdateValue → Call
  deleted : String → Call

-- What becomes of a message.
pub data Verdict : Type 0 where
  keep : String → Verdict  -- it stays, with this status
  drop : String → Verdict  -- it goes, with this status
  done : Verdict  -- it goes, with no further status

abbrev pub verdict_of : TaskResult → Verdict
verdict_of success = done
verdict_of message_temporarily_failed = keep "retrying_worker_message_failure"
verdict_of system_temporarily_failed = keep "retrying_worker_system_failure"
verdict_of message_permanently_failed = drop "failed_worker_message_permanent"
verdict_of system_permanently_failed = drop "failed_worker_unknown_result"
verdict_of (code _) = drop "failed_worker_unknown_result"

-- An error decides before the result does.
abbrev pub verdict : Option GoError → TaskResult → Verdict
verdict (some _) result = keep "failed_worker_processing"
verdict none result = verdict_of result

abbrev pub is_some : {A : Type 0} → Option A → Bool
is_some none = false
is_some (some _) = true

abbrev pub removal : String → Verdict → List Call
removal receipt (keep _) = []
removal receipt (drop _) = deleted receipt ∷ []
removal receipt done = deleted receipt ∷ []

abbrev pub final_status : Verdict → Option UpdateValue
final_status (keep status) = some (string status)
final_status (drop status) = some (string status)
final_status done = none

abbrev pub final_update : String → Option UpdateValue → List Call
final_update id none = []
final_update id (some status) = updated id (some status) ∷ []

-- the calls for one record whose processing gives `reply`
abbrev pub plan_of : String → String → Reply → List Call
plan_of receipt id reply =
    updated id (some (string "in_progress_worker"))
    ∷ (removal receipt (verdict reply.error reply.result)
        ++ final_update reply.task.id (final_status (verdict reply.error reply.result)))

-- the calls for received tasks, each with its receipt
abbrev pub plan : (Task → Reply) → List (Task × String) → List Call
plan process [] = []
plan process (entry ∷ rest) = plan_of entry.1 entry.0.id (process entry.0) ++ plan process rest

abbrev pub records : List (Task × String) → List TaskWithReceipt
records [] = []
records (entry ∷ rest) = (record { task = some entry.0; receipt_handle = entry.1 }) ∷ records rest
