-- ===== src/Tests/Load.antt =====
-- The theorem on the load of one process at a concrete input.
use mathlib.Core.Path.{subst}
use mathlib.Core.Option.{some-injective}
use bfo.Resources.Serial.{Fits}
use bfo.Common.{◌≡◌, refl, inr, false, none, some, String, [], ◌∷◌, arith, pure, lookup, sym}
use bfo.Resources.Types.{ResourceInstanceState, Provider}
use bfo.Resources.Service as Resources
use bfo.Resources.Capacity.{AllFit}
use bfo.AppContext.{AppContext}
use bfo.Commands.{event_loop}
use bfo.Commands.Load.{event_loop-AllFit}
use bfo.Providers.Echo.{zero_batch}
use bfo.Tests.{service_a, record_a}
use bfo.Tests.Capacity.{state_a}
use bfo.Tests.Sharing.{state_rt, state_pool}

abbrev accepting : Provider ResourceInstanceState
accepting = record {
  create_file = λ name content purpose. pure none;
  create_batch = λ request. pure (some zero_batch);
  retrieve_batch = λ id. pure none;
  cancel_batch = λ id. pure none;
  list_batches = λ params. pure none;
  get_file_content = λ id. pure [];
}

abbrev one_resource : Resources.Service ResourceInstanceState
one_resource = record state_pool { resources = ("gpu", some accepting) ∷ [] }

abbrev state_context : AppContext ResourceInstanceState
state_context = record {
  tasks = record {
    config = service_a.config;
    context = some "url";
    repository = record {
      get_task_status = λ id. pure none;
      put_task_status = λ status. pure tt;
      update_task_status = λ id m. pure tt;
      enqueue_task = λ url t. pure tt;
      pick_task_from_queue = λ url. pure (record_a ∷ []);
      delete_task_from_queue = λ url receipt. pure tt;
      upsert_task_bucket = λ b. pure tt;
    };
  };
  resources = some one_resource;
}

only_accepting :
    (key : String) (provider : Provider ResourceInstanceState)
    → lookup key one_resource.resources ≡ some (some provider)
    → accepting ≡ provider
unfolding lookup
only_accepting key provider e = grind arith

event_loop-AllFit_example :
    AllFit (λ w key. some w) (event_loop state_rt state_context (λ w. (false, w)) 20 state_a).1
event_loop-AllFit_example =
    event_loop-AllFit state_rt state_context one_resource (λ w. (false, w)) (λ w key. some w) refl
      (λ key w found e. ground arith) (λ key other w. refl) (λ state other w. inr refl)
      (λ other w. refl) (λ other w. refl) (λ keys other w. refl)
      (λ key provider e request other w. rw (sym (only_accepting key provider e)) refl)
      (λ other w. refl) (λ url other w. refl) (λ id m other w. refl) (λ url receipt other w. refl)
      20 state_a
      (λ key state e.
        subst Fits (some-injective state_a state e)
          (record { limit = omega arith; within = omega arith }))
