-- ===== src/Http/Server.antt =====
-- pkg/api/adapters/http/http.go and the registrations of both routes files. The router, the
-- service, the middlewares and the modules are ajan/httpfx's: they are parameters.
use bfo.Common.{ℕ, String, Option, Io, GoError, Runtime, ◌>>=◌, ◌>>◌}
use bfo.Tasks.Service.{Service}
use bfo.Http.{Result, Request, Decoder, put_schema, put_task}

-- A route with its handler, and what is said of it in the documentation of the interface.
pub record Route (W Body : Type 0) : Type 0 where
  pub pattern : String
  pub handler : Request Body → Io W Result
  pub summary : String
  pub description : String
  pub response : ℕ

-- `metrics` is made with `InnerMetrics` of the service.
pub data Middleware (HttpService : Type 0) : Type 0 where
  error_handler : Middleware HttpService
  resolve_address : Middleware HttpService
  response_time : Middleware HttpService
  correlation_id : Middleware HttpService
  cors : Middleware HttpService
  metrics : HttpService → Middleware HttpService

pub data Module : Type 0 where
  healthcheck : Module
  openapi : Module
  profiling : Module

-- What `Start` comes back with: the function that stops the server, which may be nil, and its error.
pub record Started (W : Type 0) : Type 0 where
  pub cleanup : Option (Io W (Unit {0}))
  pub error : Option GoError

pub record HttpFx (W Body Router HttpService HttpConfig : Type 0) : Type 0 where
  pub new_router : String → Io W Router
  pub new_http_service : HttpConfig → Router → Io W HttpService
  pub use_middleware : Router → Middleware HttpService → Io W (Unit {0})
  pub register_module : Router → HttpConfig → Module → Io W (Unit {0})
  pub route : Router → Route W Body → Io W (Unit {0})
  pub start : HttpService → Io W (Started W)

module _ {W Body : Type 0} (decoder : Decoder Body) (tasks : Service W) where
  unfoldable pub schema_route : Route W Body
  schema_route = record {
    pattern = "PUT /api/{bucket}/schema";
    handler = put_schema decoder tasks;
    summary = "Set task bucket's schema";
    description = "Set the schema for a task bucket.";
    response = 200;
  }

  unfoldable pub tasks_route : Runtime W → Route W Body
  tasks_route rt = record {
    pattern = "PUT /api/{bucket}/tasks/{id...}";
    handler = put_task decoder tasks rt;
    summary = "Dispatch task";
    description = "Dispatch a task to the task service.";
    response = 200;
  }

module _ {W Body Router HttpService HttpConfig : Type 0}
    (fx : HttpFx W Body Router HttpService HttpConfig) where
  unfoldable pub register_http_routes_for_task_buckets :
      Decoder Body → Service W → Router → Io W (Unit {0})
  register_http_routes_for_task_buckets decoder tasks routes =
      fx.route routes (schema_route decoder tasks)

  unfoldable pub register_http_routes_for_tasks :
      Decoder Body → Service W → Runtime W → Router → Io W (Unit {0})
  register_http_routes_for_tasks decoder tasks rt routes =
      fx.route routes (tasks_route decoder tasks rt)

  unfoldable pub use_middlewares : Router → HttpService → Io W (Unit {0})
  use_middlewares routes service = do
    fx.use_middleware routes error_handler
    fx.use_middleware routes resolve_address
    fx.use_middleware routes response_time
    fx.use_middleware routes correlation_id
    fx.use_middleware routes cors
    fx.use_middleware routes (metrics service)

  unfoldable pub register_modules : Router → HttpConfig → Io W (Unit {0})
  register_modules routes config = do
    fx.register_module routes config healthcheck
    fx.register_module routes config openapi
    fx.register_module routes config profiling

  -- `Run`
  unfoldable pub run : HttpConfig → Decoder Body → Service W → Runtime W → Io W (Started W)
  run config decoder tasks rt = do
    routes ← fx.new_router "/"
    service ← fx.new_http_service config routes
    use_middlewares routes service
    register_modules routes config
    register_http_routes_for_task_buckets decoder tasks routes
    register_http_routes_for_tasks decoder tasks rt routes
    fx.start service
