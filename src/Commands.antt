-- ===== src/Commands.antt =====
-- cmd/serve/main.go and cmd/cli/main.go. The process with its goroutines is ajan/processfx's: it is
-- a parameter, as the context is, which is asked whether it is done, or waited for.
pub mod EventLoop
pub mod Load
pub mod Starvation
use bfo.Common.{
  ℕ, zero, suc, Bool, List, Io, Res, ok, fail, panic, if◌then◌else◌, always, pure, Runtime, ◌>>=◌,
  ◌>>◌, String, deref,
}
use bfo.Tasks.Types.{TaskBucket}
use bfo.Adapters.Repository.{list_task_buckets}
use bfo.AppContext.{AppContext, tick}
use bfo.AppContext.Init.{Environment, init}
use bfo.Http.{Decoder}
use bfo.Http.Server.{HttpFx, Started, run}

-- `if err != nil { panic(err) }`
abbrev pub or_panic : {A : Type 0} → Res A → Res A
or_panic (ok a) = ok a
or_panic (fail _) = panic
or_panic panic = panic

abbrev pub must : {W A : Type 0} → Io W A → Io W A
must m w = let (r, w') = m w in (or_panic r, w')

-- `main` of cmd/cli: the buckets that it logs
unfoldable pub list_buckets :
    {W Item Cfg : Type 0} → Environment W Item Cfg → Io W (List TaskBucket)
list_buckets env = do started ← must (init env); must (list_task_buckets started.0)

-- Where the event loop stands after a number of turns.
pub data Loop : Type 0 where
  running : Loop
  stopped : Loop  -- the context was done

module _ {W : Type 0} (rt : Runtime W) (a : AppContext W) (is_done : W → Bool × W) where
  -- the goroutine "event-loop" of cmd/serve, for at most `turns` turns of its loop
  unfoldable pub event_loop : (turns : ℕ) → Io W Loop
  event_loop zero = pure running
  event_loop (suc turns) =
      let rest = event_loop turns in
      always is_done >>= λ done. if done then pure stopped else (tick rt a >> rest)

-- The goroutine "http-server" over `http.Run`, whose error is only logged. What it deferred runs when
-- the context is done; a nil function panics then.
unfoldable pub http_server :
    {W : Type 0} → Io W (Started W) → (await_done : W → Unit {0} × W) → Io W (Unit {0})
http_server run_http await_done = do
  started ← run_http
  always await_done
  cleanup ← deref started.cleanup
  cleanup

-- What `main` asks of processfx; the context of the process is passed on by the source.
pub record ProcessFx (W Process : Type 0) : Type 0 where
  pub new : Io W Process
  pub start_goroutine : Process → String → Io W (Unit {0}) → Io W (Unit {0})
  pub wait : Process → Io W (Unit {0})
  pub shutdown : Process → Io W (Unit {0})
  pub is_done : W → Bool × W
  pub await_done : W → Unit {0} × W

-- `main` of cmd/serve, with at most `turns` turns of the event loop
unfoldable pub serve :
    {W Item Cfg Process Body Router HttpService HttpConfig : Type 0}
    → Environment W Item Cfg
    → ProcessFx W Process
    → HttpFx W Body Router HttpService HttpConfig
    → HttpConfig
    → Decoder Body
    → Runtime W
    → (turns : ℕ) → Io W (Unit {0})
serve env processes fx config decoder rt turns = do
  started ← must (init env)
  process ← processes.new
  processes.start_goroutine process "http-server"
      (http_server (run fx config decoder started.1.tasks rt) processes.await_done)
  processes.start_goroutine process "event-loop"
      (event_loop rt started.1 processes.is_done turns >> pure tt)
  processes.wait process
  processes.shutdown process
