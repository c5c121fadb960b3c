-- ===== src/Commands/Load.antt =====
-- cmd/serve/main.go: the load that the event loop of one process puts on the resources.
use bfo.Common.{◌≡◌, ◌⊎◌, Option, some, ok, String, List, ℕ, Bool, arith, Runtime, lookup}
use bfo.Tasks.Types.{Task, Updates}
use bfo.Tasks.Delivery.{Keeps, pick_up-Keeps}
use bfo.Resources.Types.{ResourceInstanceState, Provider, CreateBatchRequest}
use bfo.Resources.Service.{Service}
use bfo.Resources.Capacity.{View, AllFit, same-AllFit}
use bfo.Resources.Alone.{try_process_task-AllFit}
use bfo.AppContext.{AppContext, process_fn, tick}
use bfo.Commands.{event_loop}
use bfo.Commands.EventLoop.{event_loop-Keeps}

module _ {W : Type 0} (rt : Runtime W) (a : AppContext W) (s : Service W) (is_done : W → Bool × W)
    (view : View W) (set : a.resources ≡ some s)
    (reads : (key : String) (w : W) (found : Option ResourceInstanceState)
      → (s.repository.get_resource_instance_state key w).0 ≡ ok found
      → found ≡ view w key)
    (reading : (key other : String) (w : W)
      → view (s.repository.get_resource_instance_state key w).1 other ≡ view w other)
    (putting : (state : ResourceInstanceState) (other : String) (w : W)
      → (view (s.repository.put_resource_instance_state state w).1 other ≡ view w other)
        ⊎ (view (s.repository.put_resource_instance_state state w).1 other ≡ some state))
    (ticking : (other : String) (w : W) → view (rt.now w).1 other ≡ view w other)
    (naming : (other : String) (w : W) → view (rt.unique_id w).1 other ≡ view w other)
    (ranging : (keys : List String) (other : String) (w : W)
      → view (rt.range_keys keys w).1 other ≡ view w other)
    (creating : (key : String) (provider : Provider W)
      → lookup key s.resources ≡ some (some provider)
      → (request : CreateBatchRequest) (other : String) (w : W)
      → view (provider.create_batch request w).1 other ≡ view w other)
    (asking : (other : String) (w : W) → view (is_done w).1 other ≡ view w other)
    (picking : (url other : String) (w : W)
      → view (a.tasks.repository.pick_task_from_queue url w).1 other ≡ view w other)
    (updating : (id : String) (m : Updates) (other : String) (w : W)
      → view (a.tasks.repository.update_task_status id m w).1 other ≡ view w other)
    (deleting : (url receipt other : String) (w : W)
      → view (a.tasks.repository.delete_task_from_queue url receipt w).1 other ≡ view w other) where
  process_fn-AllFit : (task : Task) → Keeps (AllFit view) (process_fn rt a task)
  unfolding process_fn
  process_fn-AllFit task w fit = grind (
    arith,
    set,
    try_process_task-AllFit rt s view reads reading putting ticking naming ranging creating task w
        fit,
  )

  tick-AllFit : Keeps (AllFit view) (tick rt a)
  unfolding tick
  tick-AllFit =
      pick_up-Keeps (AllFit view) a.tasks rt (process_fn rt a)
        (λ w. same-AllFit view w (rt.now w).1 (λ other. ticking other w))
        (λ url w.
          same-AllFit view w (a.tasks.repository.pick_task_from_queue url w).1
            (λ other. picking url other w))
        (λ id m w.
          same-AllFit view w (a.tasks.repository.update_task_status id m w).1
            (λ other. updating id m other w))
        process_fn-AllFit
        (λ url receipt w.
          same-AllFit view w (a.tasks.repository.delete_task_from_queue url receipt w).1
            (λ other. deleting url receipt other w))

  -- A single process never exceeds the limit of any resource, whatever fails on the way: `view`
  -- is the stored state under each key; reading gives it where it succeeds, a put changes
  -- nothing or sets a state to its argument, and the clock, ids, the queue, the statuses and
  -- the providers leave it as it is. Then, if every stored state has no more active batches
  -- than its limit, which is no negative number, this holds after any number of turns of the
  -- event loop.
  pub event_loop-AllFit : (turns : ℕ) → Keeps (AllFit view) (event_loop rt a is_done turns)
  event_loop-AllFit =
      event_loop-Keeps rt a is_done (AllFit view)
        (λ w. same-AllFit view w (is_done w).1 (λ other. asking other w)) tick-AllFit
