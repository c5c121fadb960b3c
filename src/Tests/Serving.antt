-- ===== src/Tests/Serving.antt =====
-- The theorems on the server and on a loop without room at concrete inputs.
use mathlib.Core.List.{append-nil}
use mathlib.Core.Option.{some-injective}
use bfo.Common.{
  ◌≡◌, refl, true, ok, none, some, List, String, [], ◌∷◌, ◌++◌, arith, pure, ge64, sym, is_ok, Bool,
}
use bfo.Common.{Runtime}
use bfo.Tasks.Service.{Service}
use bfo.Resources.Types.{ResourceInstanceState}
use bfo.Resources.Service as Resources
use bfo.Resources.Service.{takes, with_estimate, can_take}
use bfo.Http.Server.{
  error_handler, resolve_address, response_time, correlation_id, cors, metrics, healthcheck,
  openapi, profiling, HttpFx, run, use_middlewares, register_modules,
  register_http_routes_for_task_buckets, register_http_routes_for_tasks, schema_route, tasks_route,
}
use bfo.Http.Routing.{Event, using, mounting, routing, starting, run-Logs}
use bfo.Commands.{event_loop}
use bfo.Commands.Starvation.{event_loop_full-Keeps}
use bfo.Tests.{World, start, rt, service_a}
use bfo.Tests.Capacity.{state_a}
use bfo.AppContext.{AppContext}
use bfo.Tests.Capacity.{pool}
use bfo.Tests.Requests.{decoder_a}

abbrev full_pool : Resources.Service World
full_pool = record pool {
  repository = record {
    get_resource_instance_state = λ key w. (ok (some (record state_a { active_batches = 8 })), w);
    put_resource_instance_state = λ state. pure tt;
  };
}

abbrev context_full : AppContext World
context_full = record { tasks = service_a; resources = some full_pool }

full_state :
    (state : ResourceInstanceState)
    → some (record state_a { active_batches = 8 }) ≡ some state
    → ge64 state.active_batches state.max_concurrent_batches ≡ true
unfolding ge64
full_state state e = rw (sym (some-injective _ _ e)) refl

event_loop_full-Keeps_example :
    (event_loop rt context_full (λ w. (Bool.false, w)) 3 start).1.held ≡ true
event_loop_full-Keeps_example =
    event_loop_full-Keeps (λ w. w.held ≡ true) rt context_full full_pool (λ w. (Bool.false, w)) refl
      (λ key w state q e. full_state state (ground arith)) (λ key w q. q) (λ keys w q. q) (λ w q. q)
      (λ w q. q) (λ w q. q) (λ url w q. q) (λ id m w q. q) 3 start refl

abbrev name_of : Event (List String) (Unit {0}) (Unit {0}) → String
name_of (using error_handler) = "error handler"
name_of (using resolve_address) = "resolve address"
name_of (using response_time) = "response time"
name_of (using correlation_id) = "correlation id"
name_of (using cors) = "cors"
name_of (using (metrics service)) = "metrics"
name_of (mounting healthcheck) = "health check"
name_of (mounting openapi) = "open api"
name_of (mounting profiling) = "profiling"
name_of (routing r) = r.pattern
name_of (starting service) = "start"

abbrev recording : HttpFx (List String) (Unit {0}) (Unit {0}) (Unit {0}) (Unit {0})
recording = record {
  new_router = λ path. pure tt;
  new_http_service = λ config routes. pure tt;
  use_middleware = λ routes m w. (ok tt, w ++ name_of (using m) ∷ []);
  register_module = λ routes config m w. (ok tt, w ++ name_of (mounting m) ∷ []);
  route = λ routes r w. (ok tt, w ++ name_of (routing r) ∷ []);
  start = λ service w. (
    ok (record { cleanup = some (pure tt); error = none }),
    w ++ name_of (starting service) ∷ [],
  );
}

abbrev list_rt : Runtime (List String)
list_rt = record { now = λ w. (7, w); unique_id = λ w. ("new-id", w); range_keys = λ ks w. (ks, w) }

abbrev no_tasks : Service (List String)
no_tasks = record {
  config = service_a.config;
  context = none;
  repository = record {
    get_task_status = λ id. pure none;
    put_task_status = λ status. pure tt;
    update_task_status = λ id m. pure tt;
    enqueue_task = λ url t. pure tt;
    pick_task_from_queue = λ url. pure [];
    delete_task_from_queue = λ url receipt. pure tt;
    upsert_task_bucket = λ bucket. pure tt;
  };
}

runs : is_ok (run recording tt decoder_a no_tasks list_rt []).0 ≡ true
unfolding run use_middlewares register_modules register_http_routes_for_task_buckets
    register_http_routes_for_tasks
runs = refl

assembled :
    (run recording tt decoder_a no_tasks list_rt []).1
    ≡ "error handler" ∷ "resolve address" ∷ "response time" ∷ "correlation id" ∷ "cors" ∷ "metrics"
      ∷ "health check" ∷ "open api" ∷ "profiling" ∷ "PUT /api/{bucket}/schema"
      ∷ "PUT /api/{bucket}/tasks/{id...}" ∷ "start" ∷ []
unfolding schema_route tasks_route
assembled =
    (run-Logs recording (λ w. w) name_of (λ path w e. sym (append-nil w))
      (λ config routes w e. sym (append-nil w)) (λ routes m w e. refl) (λ routes config m w e. refl)
      (λ routes r w e. refl) (λ service w e. refl) tt decoder_a no_tasks list_rt [] runs).1
