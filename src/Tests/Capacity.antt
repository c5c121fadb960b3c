-- ===== src/Tests/Capacity.antt =====
-- The theorems on resources and on the worker's tick at concrete inputs.
use mathlib.Core.List.{Memᴰ}
use bfo.Common.{
  ◌+◌, ◌≤◌, ◌<◌, ◌≡◌, refl, ◌≢◌, ◌↔◌, ◌⊎◌, true, false, String, Option, none, some, List, [], ◌∷◌,
  arith, str_eq, if◌then◌else◌, ok, fail, plain, wrap, pure, raise, ◌<>◌, All, add64, gt64, ge64,
  lookup,
}
use bfo.Tasks.Types.{Task}
use bfo.Tasks.Service.{Reply, success, system_permanently_failed}
use bfo.Resources.Types.{ResourceInstanceState, ConfigResource, Provider}
use bfo.Resources.Service as Resources
use bfo.Resources.Service.{can_take, takes, find_from, add_resource}
use bfo.Resources.Dispatch.{dispatch_task, dispatch_reply, try_process_task}
use bfo.Resources.Booking.{dispatch_task-refused}
use bfo.Resources.Choice.{
  can_take_iff, can_take_overflow, find_from-first, find_from_order, add_resource-unstored,
}
use bfo.AppContext.{AppContext, process_fn}
use bfo.AppContext.Ticks.{process_fn-cases}
use bfo.Tests.{World, start, rt, task_a, service_a}

abbrev pub state_a : ResourceInstanceState
state_a = record {
  last_activity_time = 5;
  resource_instance_id = "gpu";
  provider_name = "echo";
  state = [];
  current_token_load = 18446744073709551615;
  active_batches = 2;
  max_concurrent_batches = 8;
  tokens_per_minute = 1000;
  max_tokens_per_batch = 1000;
  version = 1;
}

abbrev pub small_task : Task
small_task = record task_a { id = "t"; estimated_input_tokens = 3; max_tokens = 500 }

abbrev huge_task : Task
huge_task = record task_a { estimated_input_tokens = 9223372036854775807; max_tokens = 500 }

abbrev pub refusing : Provider World
refusing = record {
  create_file = λ name content purpose. raise (plain "off");
  create_batch = λ request. raise (plain "off");
  retrieve_batch = λ id. raise (plain "off");
  cancel_batch = λ id. raise (plain "off");
  list_batches = λ params. raise (plain "off");
  get_file_content = λ id. raise (plain "off");
}

-- Only the resource "gpu" has a stored state.
abbrev pub reads : String → Option ResourceInstanceState
reads key = if str_eq key "gpu" then some state_a else none

abbrev store : Resources.Repository World
store = record {
  get_resource_instance_state = λ key. pure (reads key);
  put_resource_instance_state = λ state w. (ok tt, record w { stored = true });
}

abbrev pub pool : Resources.Service World
pool = record {
  config = [];
  repository = store;
  providers = ("echo", λ config. some refusing) ∷ [];
  resources = ("cpu", some refusing) ∷ ("gpu", some refusing) ∷ [];
  resource_configs = [];
}

dispatch_task-refused_example : dispatch_task rt pool "gpu" refusing small_task start ≡ (
  fail (wrap ("failed to create batch for task " <> "t") (plain "off")),
  record { held = true; stored = true },
)
dispatch_task-refused_example =
    dispatch_task-refused rt pool "gpu" refusing small_task state_a (plain "off") start start
      (ground arith) refl (λ stored w. refl) (λ request w. refl)

pub state_a_takes : can_take small_task state_a ≡ true
unfolding can_take
state_a_takes =
    (can_take_iff small_task state_a (omega arith) (omega arith) (omega arith) (omega arith)).1
      (omega arith, omega arith)

can_take_iff_example : (can_take small_task state_a ≡ true) ↔ (
    (small_task.estimated_input_tokens + small_task.max_tokens ≤ state_a.max_tokens_per_batch)
    × (state_a.active_batches < state_a.max_concurrent_batches))
can_take_iff_example =
    can_take_iff small_task state_a (omega arith) (omega arith) (omega arith) (omega arith)

can_take_overflow_example : can_take huge_task state_a ≡ true
unfolding ge64
can_take_overflow_example =
    can_take_overflow huge_task state_a (omega arith) (omega arith) (omega arith) (omega arith) refl

abbrev order_a : List String
order_a = "cpu" ∷ "gpu" ∷ []

abbrev order_b : List String
order_b = "gpu" ∷ "cpu" ∷ []

find_from-first_example :
    ((find_from store small_task order_a start ≡ (ok none, start))
      × All (λ key. takes small_task (reads key) ≡ false) order_a)
    ⊎ ((key : String) × (find_from store small_task order_a start ≡ (ok (some key), start))
        × Memᴰ key order_a
        × (takes small_task (reads key) ≡ true))
find_from-first_example = find_from-first store small_task reads start (λ key. refl) order_a

same_keys : (k : String) → Memᴰ k order_a → Memᴰ k order_b
same_keys k (Memᴰ.head e) = Memᴰ.tail (Memᴰ.head e)
same_keys k (Memᴰ.tail (Memᴰ.head e)) = Memᴰ.head e
same_keys k (Memᴰ.tail (Memᴰ.tail m)) = elim m [ ]

found_gpu : find_from store small_task order_a start ≡ (ok (some "gpu"), start)
unfolding find_from Resources.read_state can_take gt64 add64 ge64
found_gpu = refl

find_from_order_example :
    (k : String) × (find_from store small_task order_b start ≡ (ok (some k), start))
    × (takes small_task (reads k) ≡ true)
find_from_order_example =
    find_from_order store small_task reads start (λ key. refl) order_a order_b "gpu" same_keys
      found_gpu

abbrev empty_store : Resources.Repository World
empty_store = record store { get_resource_instance_state = λ key. pure none }

abbrev empty_pool : Resources.Service World
empty_pool = record pool { repository = empty_store }

abbrev config_a : ConfigResource
config_a = record {
  instances = [];
  models = [];
  properties = [];
  provider = "echo";
  period = 60;
  disabled = false;
}

add_resource-unstored_example :
    ((s' : Resources.Service World) × (add_resource rt empty_pool "gpu" config_a start
        ≡ (ok (s', none), start)))
    × (find_from empty_store small_task order_a start ≡ (ok none, start))
unfolding lookup
add_resource-unstored_example =
    add_resource-unstored rt empty_pool "gpu" config_a small_task order_a start (λ k. refl)
      (λ e. cc e)

abbrev idle : AppContext World
idle = record { tasks = service_a; resources = some (record pool { resources = [] }) }

abbrev no_resource : Reply
no_resource = record {
  task = record small_task { created_at = 7 };
  result = system_permanently_failed;
  error = some (
      wrap "failed to process task 't'" (
        wrap "failed to find available resource for task t"
          (plain "no suitable resource found for task Id 't'")));
}

no_resource_reply : (process_fn rt idle small_task start).0 ≡ ok no_resource
unfolding process_fn try_process_task Resources.find_best_available_resource dispatch_reply
    Resources.with_estimate find_from
no_resource_reply = refl

process_fn-cases_example :
    ((no_resource.error ≡ none) × (no_resource.result ≡ success))
    ⊎ ((no_resource.error ≢ none) × (no_resource.result ≡ system_permanently_failed))
process_fn-cases_example = process_fn-cases rt idle small_task start no_resource no_resource_reply
