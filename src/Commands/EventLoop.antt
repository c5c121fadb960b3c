-- ===== src/Commands/EventLoop.antt =====
-- cmd/serve/main.go: how the event loop goes on and ends.
use bfo.Common.{◌≡◌, ℕ, zero, suc, Bool, false, ok, panic, String, List, ◌∷◌, arith, Runtime, some}
use bfo.Tasks.Types.{TaskWithReceipt}
use bfo.Tasks.Delivery.{Keeps}
use bfo.Adapters.Repository.{Repository, pick_task_from_queue}
use bfo.AppContext.{AppContext, tick}
use bfo.AppContext.Init.{Environment, init}
use bfo.AppContext.Startup.{init-tick, init-tick-Keeps}
use bfo.Commands.{event_loop}

module _ {W : Type 0} (rt : Runtime W) (a : AppContext W) (is_done : W → Bool × W) where
  pub event_loop-Keeps :
      (P : W → Type 0)
      → ((w : W) → P w → P (is_done w).1)
      → Keeps P (tick rt a)
      → (turns : ℕ) → Keeps P (event_loop rt a is_done turns)
  unfolding event_loop
  event_loop-Keeps P asking ticking zero w p = p
  event_loop-Keeps P asking ticking (suc turns) w p =
      grind (arith, asking w p, ticking, event_loop-Keeps P asking ticking turns)

-- The application as it is composed does not survive its first message: if `Init` has succeeded
-- and stored an url, the context is not done, and receiving from that url gives at least one
-- task, then the event loop panics in that turn.
pub event_loop-unset :
    {W Item Cfg : Type 0} (env : Environment W Item Cfg) (rt : Runtime W) (is_done : W → Bool × W)
    (turns : ℕ) (w : W) (r : Repository W Item) (a : AppContext W) (url : String)
    (x : TaskWithReceipt) (xs : List TaskWithReceipt) (v : W)
    → (init env w).0 ≡ ok (r, a)
    → a.tasks.context ≡ some url
    → (is_done v).0 ≡ false
    → (pick_task_from_queue r url (is_done v).1).0 ≡ ok (x ∷ xs)
    → (event_loop rt a is_done (suc turns) v).0 ≡ panic
unfolding event_loop
event_loop-unset env rt is_done turns w r a url x xs v done set goes received =
    ground (arith, init-tick env rt w r a url x xs (is_done v).1 done set received)

-- The application as it is composed deletes no message and dispatches no task: after a successful
-- `Init`, any number of turns of the event loop keeps each property of the outside world that
-- asking whether the context is done, the clock and receiving messages keep.
pub event_loop_unset-Keeps :
    {W Item Cfg : Type 0} (P : W → Type 0) (env : Environment W Item Cfg) (rt : Runtime W)
    (is_done : W → Bool × W) (w : W) (r : Repository W Item) (a : AppContext W)
    → (init env w).0 ≡ ok (r, a)
    → ((v : W) → P v → P (is_done v).1)
    → ((v : W) → P v → P (rt.now v).1)
    → ((url : String) → Keeps P (pick_task_from_queue r url))
    → (turns : ℕ) → Keeps P (event_loop rt a is_done turns)
event_loop_unset-Keeps P env rt is_done w r a done asking now pick =
    event_loop-Keeps rt a is_done P asking (init-tick-Keeps P env rt w r a done now pick)
