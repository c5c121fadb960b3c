-- ===== src/Tests/Rounds.antt =====
-- The theorems on a round of the worker, and on the way of a task to it, at concrete inputs.
use bfo.Common.{
  ◌≡◌, refl, ok, none, some, Option, String, List, [], ◌∷◌, ◌++◌, arith, plain, pure, fail, Runtime,
  lookup, str_eq, if◌then◌else◌, ap, ◌∙◌, ◌||◌, Bool, true, false,
}
use bfo.Tasks.Types.{Task, UpdateValue, string, time}
use bfo.Tasks.Service.{Service, Reply, success, system_permanently_failed}
use bfo.Tasks.Worker.{pick_up_next_available_task}
use bfo.Tasks.Plan.{Call, updated, deleted, plan, records}
use bfo.Tasks.Rounds.{pick_up-plan}
use bfo.Tasks.Statuses.{
  WorkerStatus, working, failed_processing, failed_for_good, failed_unknown, retrying_system,
  retrying_message, status_text, pick_up-IsTyped,
}
use bfo.Tests.{World, start, rt, task_a, service_a, retry_reply}

-- The outside world is the calls that were made; every status update fails.
abbrev call_rt : Runtime (List Call)
call_rt = record { now = λ w. (7, w); unique_id = λ w. ("new-id", w); range_keys = λ ks w. (ks, w) }

abbrev task_b : Task
task_b = record task_a { id = "b" }

abbrev task_c : Task
task_c = record task_a { id = "c" }

abbrev entries : List (Task × String)
entries = (task_b, "r1") ∷ (task_c, "r2") ∷ []

-- The task "b" succeeds, and any other fails.
abbrev process : Task → Reply
process t = record {
  task = t;
  result = if str_eq t.id "b" then success else system_permanently_failed;
  error = if str_eq t.id "b" then none else some (plain "down");
}

abbrev call_service : Service (List Call)
call_service = record {
  config = service_a.config;
  context = some "url";
  repository = record {
    get_task_status = λ id. pure none;
    put_task_status = λ status. pure tt;
    update_task_status =
        λ id m w. (fail (plain "no table"), w ++ updated id (lookup "Status" m) ∷ []);
    enqueue_task = λ url t. pure tt;
    pick_task_from_queue = λ url. pure (records entries);
    delete_task_from_queue = λ url receipt w. (ok tt, w ++ deleted receipt ∷ []);
    upsert_task_bucket = λ b. pure tt;
  };
}

planned :
    plan process entries
    ≡ updated "b" (some (string "in_progress_worker"))
      ∷ deleted "r1"
      ∷ updated "c" (some (string "in_progress_worker"))
      ∷ updated "c" (some (string "failed_worker_processing"))
      ∷ []
planned = refl

pick_up-plan_example :
    ((pick_up_next_available_task call_service call_rt (λ t. pure (process t)) []).0 ≡ ok tt)
    × ((pick_up_next_available_task call_service call_rt (λ t. pure (process t)) []).1
        ≡ plan process entries)
pick_up-plan_example =
    pick_up-plan call_service "url" call_rt (λ w. w) process (λ t. pure (process t)) (λ t w. refl)
      (λ t w. refl) (λ w. refl) (λ id m w e. ground arith) (λ id m w. refl)
      (λ receipt w e. ground arith) (λ receipt w. refl) entries [] refl refl refl

abbrev is_known : Option UpdateValue → Bool
is_known none = false
is_known (some (time t)) = false
is_known (some (string s)) =
    str_eq s "in_progress_worker"
    || str_eq s "failed_worker_processing"
    || str_eq s "failed_worker_message_permanent"
    || str_eq s "failed_worker_unknown_result"
    || str_eq s "retrying_worker_system_failure"
    || str_eq s "retrying_worker_message_failure"

is_known-status_text :
    (status : WorkerStatus) → is_known (some (string (status_text status))) ≡ true
is_known-status_text working = refl
is_known-status_text failed_processing = refl
is_known-status_text failed_for_good = refl
is_known-status_text failed_unknown = refl
is_known-status_text retrying_system = refl
is_known-status_text retrying_message = refl

-- `stored` says whether the last update had a status that is known.
abbrev watching : Service World
watching = record service_a {
  repository = record service_a.repository {
    update_task_status = λ id m w. (ok tt, record w { stored = is_known (lookup "Status" m) });
  };
}

pick_up-IsTyped_example :
    (pick_up_next_available_task watching rt
      (λ t. pure (retry_reply t))
      (record start { stored = true })).1.stored
    ≡ true
pick_up-IsTyped_example =
    pick_up-IsTyped (λ w. w.stored ≡ true) watching rt (λ t. pure (retry_reply t)) (λ w p. p)
      (λ url w p. p)
      (λ id m typed w p. ap is_known typed.has_status ∙ is_known-status_text typed.status)
      (λ t w p. p) (λ url receipt w p. p) (record start { stored = true }) refl
