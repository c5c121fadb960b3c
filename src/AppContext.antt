-- ===== src/AppContext.antt =====
-- pkg/api/adapters/appcontext/appcontext.go: one tick of the worker.
pub mod Ticks
pub mod Init
pub mod Startup
pub mod Completion
use bfo.Common.{Option, none, some, Io, wrap, ◌<>◌, pure, crash, ◌>>=◌, Runtime}
use bfo.Tasks.Types.{Task}
use bfo.Tasks.Service as Tasks
use bfo.Tasks.Service.{Reply, system_permanently_failed}
use bfo.Tasks.Worker.{pick_up_next_available_task}
use bfo.Resources.Service as Resources
use bfo.Resources.Dispatch.{try_process_task}

-- The services that `Tick` uses; a pointer that was never set is `none`.
pub record AppContext (W : Type 0) : Type 0 where
  pub tasks : Tasks.Service W
  pub resources : Option (Resources.Service W)

-- the reply of `processFn`
abbrev pub report : Reply → Reply
report reply = elim reply.error [
  | none ↦ reply
  | some e ↦ record reply {
    result = system_permanently_failed;
    error = some (wrap ("failed to process task '" <> reply.task.id <> "'") e);
  }
]

module _ {W : Type 0} (rt : Runtime W) (a : AppContext W) where
  -- `TryProcessTask` reads a field of its service at once, so a nil service panics.
  unfoldable pub process_fn : Task → Io W Reply
  process_fn task = elim a.resources [
    | none ↦ crash
    | some resources ↦ (try_process_task rt resources task >>= λ reply. pure (report reply))
  ]

  unfoldable pub tick : Io W (Unit {0})
  tick = pick_up_next_available_task a.tasks rt process_fn
