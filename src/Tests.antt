-- ===== src/Tests.antt =====
-- The theorems at concrete inputs: a small outside world with one message and one status, and
-- repositories over it.
mod Capacity
mod Intake
mod Storage
mod Tables
mod Sharing
mod Startup
mod Requests
mod Rounds
mod Load
mod Completion
mod Serving
mod ToBatch
mod Registration
use mathlib.Core.List.{Memᴰ}
use mathlib.Core.Option.{some-injective}
use mathlib.Core.Path.{subst}
use bfo.Common.{
  sym, Res, ℕ, suc, ◌+◌, ◌≤◌, ◌<◌, ◌≡◌, refl, ap, ◌≢◌, ◌↔◌, ◌⊎◌, inl, inr, Bool, true, false,
  String, Option, none, some, List, [], ◌∷◌, arith, str_eq, eq_iff, if◌then◌else◌, Io, ok, fail,
  panic, GoError, plain, wrap, join, tasks, TasksError, pure, raise, on_error, ◌<>◌, All, is_ok,
  Runtime, add64, sign_bit, word_mod, lookup,
}
use bfo.Tasks.Types.{Task, TaskBucket, TaskWithReceipt, TaskStatus}
use bfo.Tasks.Service.{
  Service, Repository, Reply, ProcessFn, success, system_temporarily_failed,
  system_permanently_failed, update_task_bucket, dispatch_task, fill_task, submit_task,
}
use bfo.Tasks.Worker.{pick_up_next_available_task, handle_record}
use bfo.Tasks.Delivery.{pick_up-Keeps_message}
use bfo.Tasks.Outcome.{handle_record-removes, pick_up-Succeeds}
use bfo.Tasks.Dispatch.{Fills, dispatch_task-Fills, dispatch_task_stored}

-- Is the message "r1" in the queue, and is a status stored?
record World : Type 0 where
  held : Bool
  stored : Bool

abbrev start : World
start = record { held = true; stored = false }

abbrev rt : Runtime World
rt = record { now = λ w. (7, w); unique_id = λ w. ("new-id", w); range_keys = λ ks w. (ks, w) }

abbrev task_a : Task
task_a = record {
  created_at = 0;
  bucket_id = "b";
  id = "";
  model = "m";
  messages = record { role = "user"; content = "bar" } ∷ [];
  max_tokens = 0;
  estimated_input_tokens = 0;
  temperature = 0;
  priority = 2;
  sla = 43200;
}

abbrev record_a : TaskWithReceipt
record_a = record { task = some task_a; receipt_handle = "r1" }

abbrev bucket_a : TaskBucket
bucket_a = record {
  hooks = record { result = "x"; refresh = "y" };
  id = "b";
  default_priority = 0;
  default_sla = 0;
  retry_policy = record { max_attempts = 3 };
}

abbrev store_status : TaskStatus → Io World (Unit {0})
store_status status w = (ok tt, record w { stored = true })

abbrev delete_r1 : String → String → Io World (Unit {0})
delete_r1 url receipt w = (ok tt, record w { held = if str_eq receipt "r1" then false else w.held })

abbrev repository_a : Repository World
repository_a = record {
  get_task_status = λ id. pure none;
  put_task_status = store_status;
  update_task_status = λ id m. raise (plain "no such table");
  enqueue_task = λ url t. pure tt;
  pick_task_from_queue = λ url. pure (record_a ∷ []);
  delete_task_from_queue = delete_r1;
  upsert_task_bucket = λ b. pure tt;
}

abbrev service_a : Service World
service_a = record {
  config = record {
    default_max_tokens = 2000;
    retry_policy = record { max_attempts = 2; backoff_period = 3 };
  };
  context = some "url";
  repository = repository_a;
}

abbrev retry_reply : Task → Reply
retry_reply t = record { task = t; result = system_temporarily_failed; error = some (plain "down") }

abbrev success_reply : Task → Reply
success_reply t = record { task = t; result = success; error = none }

abbrev IsHeld : World → Type 0
IsHeld w = w.held ≡ true

-- Two messages are received; the task "b" of the second succeeds, and any other asks for a retry.
-- `stored` says that the second one was deleted.
abbrev task_b : Task
task_b = record task_a { id = "b" }

abbrev record_b : TaskWithReceipt
record_b = record { task = some task_b; receipt_handle = "r2" }

abbrev two_messages : Repository World
two_messages = record repository_a {
  pick_task_from_queue = λ url. pure (record_a ∷ record_b ∷ []);
  delete_task_from_queue = λ url receipt w. (
    ok tt,
    if str_eq receipt "r1" then record w { held = false } else record w { stored = true },
  );
}

abbrev b_succeeds : Task → Reply
b_succeeds t = if str_eq t.id "b" then success_reply t else retry_reply t

abbrev service_b : Service World
service_b = record service_a { repository = two_messages }

a_retries :
    (task : Task) (reply : Reply)
    → some task_a ≡ some task
    → ◌≡◌ {A = Res Reply} (ok (b_succeeds task)) (ok reply)
    → reply.result ≡ system_temporarily_failed
a_retries task reply there replied =
    let e = some-injective _ _ there in
    let r : ◌≡◌ {A = Res Reply} (ok (b_succeeds task_a)) (ok reply) =
      subst (λ t. ◌≡◌ {A = Res Reply} (ok (b_succeeds t)) (ok reply)) (sym e) replied in
    ground (arith, r)

-- The message of the task that failed stays, and the other one is deleted.
pick_up-Keeps_message_example :
    (pick_up_next_available_task service_b rt (λ t. pure (b_succeeds t)) start).1.held ≡ true
pick_up-Keeps_message_example =
    pick_up-Keeps_message IsHeld service_b rt (λ t. pure (b_succeeds t)) "r1" "url"
      (record_a ∷ record_b ∷ []) start refl refl refl (λ w p. p) (λ id m w p. p) (λ t w p. p)
      (λ other differs w p. ground (arith, eq_iff other "r1"))
      (
        λ same task v reply p there replied. inr (inl (a_retries task reply there replied)),
        (λ same task v reply p there replied. absurd (ground (arith, eq_iff "r2" "r1")), tt),
      )

handle_record-removes_example :
    (handle_record service_a "url" rt (λ t. pure (success_reply t)) record_a start).1.held ≡ false
handle_record-removes_example =
    handle_record-removes (λ w. w.held ≡ false) service_a "url" rt (λ t. pure (success_reply t))
      "r1" task_a (λ w q. q) (λ id m w q. q) (λ id m w. ground arith) (λ w. ground arith)
      (λ w. ground (arith, eq_iff "r1" "r1")) (λ w. (success_reply task_a, refl, ground arith))
      start

pick_up-Succeeds_example :
    is_ok (pick_up_next_available_task service_a rt (λ t. pure (success_reply t)) start).0 ≡ true
pick_up-Succeeds_example =
    pick_up-Succeeds service_a rt (λ t. pure (success_reply t)) "url" (record_a ∷ []) start
      (λ id m w. ground arith) (λ url r w. ground arith) (λ t w. refl) refl refl (ground arith)

abbrev fresh_service : Service World
fresh_service = record service_a { context = none }

abbrev filled_a : Task
filled_a = record task_a { id = "new-id"; created_at = 7; max_tokens = 2000 }

dispatch_task_test :
    dispatch_task rt service_a task_a start ≡ (ok filled_a, record { held = true; stored = true })
unfolding dispatch_task fill_task submit_task
dispatch_task_test = refl

dispatch_task-Fills_example :
    Fills task_a filled_a
    × ((v : World) × (service_a.repository.enqueue_task "url" filled_a v
          ≡ (ok tt, (dispatch_task rt service_a task_a start).1)))
dispatch_task-Fills_example =
    dispatch_task-Fills rt service_a "url" task_a filled_a start (λ w. ground arith)
      (λ w. ground (arith, eq_iff "new-id" "")) (ground arith) refl
      (ap (λ r. r.0) dispatch_task_test)

-- No status can be stored; sending a message would set `stored`.
abbrev no_tables : Service World
no_tables = record service_a {
  repository = record repository_a {
    put_task_status = λ status. raise (plain "no such table");
    enqueue_task = λ url t w. (ok tt, record w { stored = true });
  };
}

abbrev full_queue : Service World
full_queue = record service_a {
  repository = record repository_a { enqueue_task = λ url t. raise (plain "too long") };
}

dispatch_task_stored_example : (dispatch_task rt full_queue task_a start).1.stored ≡ true
dispatch_task_stored_example =
    dispatch_task_stored (λ w. w.stored ≡ true) rt full_queue "url" task_a start refl
      (λ status w. refl) (λ status w s. refl) (λ t w q. q)
