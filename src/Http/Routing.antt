-- ===== src/Http/Routing.antt =====
-- pkg/api/adapters/http/http.go, `Run`: the order in which the server is put together.
use mathlib.Core.List.{append_assoc, append-nil}
use bfo.Common.{
  ◌≡◌, true, String, List, [], ◌∷◌, ◌++◌, arith, Io, Runtime, ◌>>=◌, ◌>>◌, is_ok, Res-cases,
  returned, failed, panicked,
}
use bfo.Tasks.Service.{Service}
use bfo.Http.{Decoder}
use bfo.Http.Server.{
  Route, Middleware, error_handler, resolve_address, response_time, correlation_id, cors, metrics,
  Module, healthcheck, openapi, profiling, HttpFx, schema_route, tasks_route,
  register_http_routes_for_task_buckets, register_http_routes_for_tasks, use_middlewares,
  register_modules, run,
}

-- A success of the call has added these entries to a log that the outside world keeps.
abbrev pub Logs : {W L A : Type 0} → (W → List L) → Io W A → List L → Type 0
Logs {W} log m entries = (w : W) → is_ok (m w).0 ≡ true → log (m w).1 ≡ log w ++ entries

pub Logs->>= :
    {W L A B : Type 0} (log : W → List L) (m : Io W A) (f : A → Io W B) (first second : List L)
    → Logs log m first
    → ((a : A) → Logs log (f a) second)
    → Logs log (m >>= f) (first ++ second)
Logs->>= log m f first second h k w goes = elim (Res-cases (m w).0) [
  | returned a e ↦ ground (arith, e, h w, k a (m w).1, append_assoc (log w) first second)
  | failed err e ↦ ground (arith, e)
  | panicked e ↦ ground (arith, e)
]

pub Logs-then :
    {W L A B : Type 0} (log : W → List L) (m : Io W A) (k : Io W B) (first : L) (second : List L)
    → Logs log m (first ∷ [])
    → Logs log k second
    → Logs log (m >> k) (first ∷ second)
Logs-then log m k first second h g = Logs->>= log m (λ _. k) (first ∷ []) second h (λ _. g)

-- The same, where the entries are those for some value.
abbrev pub LogsSome : {W L A X : Type 0} → (W → List L) → Io W A → (X → List L) → Type 0
LogsSome {W} {X = X} log m entries =
    (w : W) → is_ok (m w).0 ≡ true → (x : X) × (log (m w).1 ≡ log w ++ entries x)

pub LogsSome->>= :
    {W L A B X : Type 0} (log : W → List L) (m : Io W A) (f : A → Io W B) (entries : X → List L)
    → Logs log m []
    → ((a : A) → LogsSome log (f a) entries)
    → LogsSome log (m >>= f) entries
LogsSome->>= log m f entries h k w goes = elim (Res-cases (m w).0) [
  | returned a e ↦
      let (x, added) = k a (m w).1 (ground (arith, e)) in
      (x, ground (arith, e, h w, added, append-nil (log w)))
  | failed err e ↦ absurd (ground (arith, e))
  | panicked e ↦ absurd (ground (arith, e))
]

-- What is done to a router, and the start of its service.
pub data Event (W Body HttpService : Type 0) : Type 0 where
  using : Middleware HttpService → Event W Body HttpService
  mounting : Module → Event W Body HttpService
  routing : Route W Body → Event W Body HttpService
  starting : HttpService → Event W Body HttpService

module _ {W Body Router HttpService HttpConfig L : Type 0}
    (fx : HttpFx W Body Router HttpService HttpConfig) (log : W → List L)
    (entry : Event W Body HttpService → L)
    (makes : (path : String) → Logs log (fx.new_router path) [])
    (serves : (config : HttpConfig) (routes : Router)
      → Logs log (fx.new_http_service config routes) [])
    (uses : (routes : Router) (m : Middleware HttpService)
      → Logs log (fx.use_middleware routes m) (entry (using m) ∷ []))
    (mounts : (routes : Router) (config : HttpConfig) (m : Module)
      → Logs log (fx.register_module routes config m) (entry (mounting m) ∷ []))
    (routes_to : (routes : Router) (r : Route W Body)
      → Logs log (fx.route routes r) (entry (routing r) ∷ []))
    (starts : (service : HttpService)
      → Logs log (fx.start service) (entry (starting service) ∷ [])) where
  use_middlewares-Logs :
      (routes : Router) (service : HttpService)
      → Logs log (use_middlewares fx routes service) (
          entry (using error_handler)
          ∷ entry (using resolve_address)
          ∷ entry (using response_time)
          ∷ entry (using correlation_id)
          ∷ entry (using cors)
          ∷ entry (using (metrics service))
          ∷ [])
  unfolding use_middlewares
  use_middlewares-Logs routes service =
      Logs-then log _ _ (entry (using error_handler)) _ (uses routes error_handler) (
        Logs-then log _ _ (entry (using resolve_address)) _ (uses routes resolve_address) (
          Logs-then log _ _ (entry (using response_time)) _ (uses routes response_time) (
            Logs-then log _ _ (entry (using correlation_id)) _ (uses routes correlation_id) (
              Logs-then log _ _ (entry (using cors)) _ (uses routes cors)
                (uses routes (metrics service))))))

  register_modules-Logs :
      (routes : Router) (config : HttpConfig)
      → Logs log (register_modules fx routes config) (
          entry (mounting healthcheck) ∷ entry (mounting openapi) ∷ entry (mounting profiling) ∷ [])
  unfolding register_modules
  register_modules-Logs routes config =
      Logs-then log _ _ (entry (mounting healthcheck)) _ (mounts routes config healthcheck) (
        Logs-then log _ _ (entry (mounting openapi)) _ (mounts routes config openapi)
          (mounts routes config profiling))

  -- A `Run` that comes back has used the six middlewares, then mounted the three modules, then
  -- registered the two routes with their handlers, and started the service last: if successful
  -- calls add such entries to a log, and the making of the router and of the service adds none,
  -- these are the entries, in this order, that a success of `Run` adds.
  pub run-Logs :
      (config : HttpConfig) (decoder : Decoder Body) (tasks : Service W) (rt : Runtime W) (w : W)
      → is_ok (run fx config decoder tasks rt w).0 ≡ true
      → (service : HttpService) × (log (run fx config decoder tasks rt w).1
          ≡ log w
            ++ entry (using error_handler)
              ∷ entry (using resolve_address)
              ∷ entry (using response_time)
              ∷ entry (using correlation_id)
              ∷ entry (using cors)
              ∷ entry (using (metrics service))
              ∷ entry (mounting healthcheck)
              ∷ entry (mounting openapi)
              ∷ entry (mounting profiling)
              ∷ entry (routing (schema_route decoder tasks))
              ∷ entry (routing (tasks_route decoder tasks rt))
              ∷ entry (starting service)
              ∷ [])
  unfolding run register_http_routes_for_task_buckets register_http_routes_for_tasks
  run-Logs config decoder tasks rt = LogsSome->>= log _ _ _ (makes "/") (λ routes.
      LogsSome->>= log _ _ _ (serves config routes) (λ service w done. (
        service,
        Logs->>= log _ _ _ _ (use_middlewares-Logs routes service)
            (λ _. Logs->>= log _ _ _ _ (register_modules-Logs routes config) (λ _.
              Logs-then log _ _ _ _ (routes_to routes (schema_route decoder tasks)) (
                Logs-then log _ _ _ _ (routes_to routes (tasks_route decoder tasks rt))
                  (starts service))))
            w done,
      )))
