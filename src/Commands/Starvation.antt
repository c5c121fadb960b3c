-- ===== src/Commands/Starvation.antt =====
-- cmd/serve/main.go: the event loop once every resource is full. No part of the program gives a batch
-- back when it is done: `HandleBatchCompletion` is only a comment in the resources service.
use bfo.Common.{
  ◌≡◌, inl, true, Bool, some, String, List, ℕ, arith, ok, ge64, Runtime, Res-cases, returned,
  failed, panicked,
}
use bfo.Tasks.Types.{Task, Updates}
use bfo.Tasks.Delivery.{Keeps, pick_up-Keeps_retried}
use bfo.Resources.Types.{ResourceInstanceState}
use bfo.Resources.Service.{Service}
use bfo.Resources.Dispatch.{try_process_task}
use bfo.Resources.Starvation.{Refuses, try_process_task-full}
use bfo.AppContext.{AppContext, process_fn, tick}
use bfo.Commands.{event_loop}
use bfo.Commands.EventLoop.{event_loop-Keeps}

module _ {W : Type 0} (Q : W → Type 0) (rt : Runtime W) (s : Service W)
    (full : (key : String) (w : W) (state : ResourceInstanceState)
      → Q w
      → (s.repository.get_resource_instance_state key w).0 ≡ ok (some state)
      → ge64 state.active_batches state.max_concurrent_batches ≡ true)
    (reading : (key : String) → Keeps Q (s.repository.get_resource_instance_state key))
    (ranging : (keys : List String) (w : W) → Q w → Q (rt.range_keys keys w).1)
    (naming : (w : W) → Q w → Q (rt.unique_id w).1) (ticking : (w : W) → Q w → Q (rt.now w).1) where
  process_fn-full :
      (a : AppContext W)
      → a.resources ≡ some s
      → (task : Task) (w : W) → Q w
      → Refuses Q (process_fn rt a task) w
  unfolding process_fn
  process_fn-full a set task w q =
      let (kept, refused) =
        try_process_task-full Q rt s full reading ranging naming ticking task w q in
      elim (Res-cases (try_process_task rt s task w).0) [
        | returned reply e ↦
            (ground (arith, set, e, kept), λ answer same. ground (arith, set, e, refused reply e))
        | failed err e ↦ (ground (arith, set, e, kept), λ answer same. ground (arith, set, e))
        | panicked e ↦ (ground (arith, set, e, kept), λ answer same. ground (arith, set, e))
      ]

-- Once every resource is full, no turn of the event loop dispatches a task, deletes a message or
-- frees a resource: if every state that can be read where `Q` holds has its active batches at the
-- limit or above it, as the code compares them, and `Q` is kept by reading states, the order of a
-- range, ids, the clock, asking whether the context is done, receiving messages and status
-- updates, then any number of turns keeps `Q`; storing a state, creating a batch and deleting a
-- message need not keep it.
pub event_loop_full-Keeps :
    {W : Type 0} (Q : W → Type 0) (rt : Runtime W) (a : AppContext W) (s : Service W)
    (is_done : W → Bool × W)
    → a.resources ≡ some s
    → ((key : String) (w : W) (state : ResourceInstanceState)
        → Q w
        → (s.repository.get_resource_instance_state key w).0 ≡ ok (some state)
        → ge64 state.active_batches state.max_concurrent_batches ≡ true)
    → ((key : String) → Keeps Q (s.repository.get_resource_instance_state key))
    → ((keys : List String) (w : W) → Q w → Q (rt.range_keys keys w).1)
    → ((w : W) → Q w → Q (rt.unique_id w).1)
    → ((w : W) → Q w → Q (rt.now w).1)
    → ((w : W) → Q w → Q (is_done w).1)
    → ((url : String) → Keeps Q (a.tasks.repository.pick_task_from_queue url))
    → ((id : String) (m : Updates) → Keeps Q (a.tasks.repository.update_task_status id m))
    → (turns : ℕ) → Keeps Q (event_loop rt a is_done turns)
unfolding tick
event_loop_full-Keeps Q rt a s is_done set full reading ranging naming ticking asking picking
      updating =
    let refuses = process_fn-full Q rt s full reading ranging naming ticking a set in
    event_loop-Keeps rt a is_done Q asking (
      pick_up-Keeps_retried Q a.tasks rt (process_fn rt a) ticking picking updating
        (λ task w q. (refuses task w q).0) (λ task w reply q e. inl ((refuses task w q).1 reply e)))
