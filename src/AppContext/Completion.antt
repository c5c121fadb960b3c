-- ===== src/AppContext/Completion.antt =====
-- pkg/api/adapters/appcontext/appcontext.go, `Tick`: a tick that does its work.
use mathlib.Core.List.{Memᴰ}
use bfo.Common.{
  ◌≡◌, inr, refl, true, Option, some, String, List, [], ◌∷◌, arith, ok, Runtime, Returns, Succeeds,
  lookup, keys,
}
use bfo.Tasks.Types.{Task, Updates}
use bfo.Tasks.Service.{Reply, success}
use bfo.Tasks.Worker.{handle_record, handle_records, pick_up_next_available_task, in_progress}
use bfo.Tasks.Delivery.{Keeps, finish_record-Keeps}
use bfo.Tasks.Outcome.{Settles, finish_record-removes}
use bfo.Resources.Types.{ResourceInstanceState, Provider, CreateBatchRequest, Batch}
use bfo.Resources.Service.{Service, takes, with_estimate}
use bfo.Resources.Success.{try_process_task-success, try_process_task-brings}
use bfo.AppContext.{AppContext, process_fn, tick}

-- Each batch that the provider is asked for is created, which brings about `R`.
abbrev pub Creates : {W : Type 0} → (W → Type 0) → Provider W → Type 0
Creates {W} R provider =
    (request : CreateBatchRequest) (w : W)
    → ((batch : Batch) × ((provider.create_batch request w).0 ≡ ok (some batch)))
      × R (provider.create_batch request w).1

module _ {W : Type 0} (R : W → Type 0) (rt : Runtime W) (a : AppContext W) (s : Service W)
    (set : a.resources ≡ some s) (reads : String → Option ResourceInstanceState)
    (Stored : W → Type 0)
    (read : (key : String) (w : W)
      → Stored w
      → s.repository.get_resource_instance_state key w ≡ (ok (reads key), w))
    (now_keeps : (w : W) → Stored w → Stored (rt.now w).1)
    (id_keeps : (w : W) → Stored w → Stored (rt.unique_id w).1)
    (range_keeps : (ks : List String) (w : W) → Stored w → Stored (rt.range_keys ks w).1)
    (update_keeps : (id : String) (m : Updates)
      → Keeps Stored (a.tasks.repository.update_task_status id m))
    (puts : (state : ResourceInstanceState)
      → Succeeds (s.repository.put_resource_instance_state state))
    (serves : (key : String) (w : W)
      → Memᴰ key (rt.range_keys (keys s.resources) w).0
      → (provider : Provider W) × (lookup key s.resources ≡ some (some provider))
        × Creates R provider)
    (task : Task) (key : String) (there : (w : W) → Memᴰ key (rt.range_keys (keys s.resources) w).0)
    (fits : takes (with_estimate task) (reads key) ≡ true) where
  process_fn-Settles :
      (w : W)
      → Stored w
      → (reply : Reply) × ((process_fn rt a task w).0 ≡ ok reply)
        × Settles reply
        × R (process_fn rt a task w).1
  unfolding process_fn
  process_fn-Settles w stored =
      let good =
        λ (provider : Provider W) (creates : Creates R provider) (request : CreateBatchRequest)
            (v : W).
          (creates request v).0 in
      let (t, replied) =
        try_process_task-success rt s reads Stored read now_keeps id_keeps range_keeps puts
          (Creates R) good serves task key there fits w stored in
      let brought =
        try_process_task-brings rt s reads Stored read now_keeps id_keeps range_keeps puts
          (Creates R) good serves R (λ provider creates request v. (creates request v).1) task key
          there fits w stored in
      (
        record { task = t; result = success; error = Option.none },
        ground (arith, set, replied),
        (refl, (λ e. ground arith), (λ e. ground arith)),
        ground (arith, set, replied, brought),
      )

  -- A tick does its work where it can. Let one message with a task be received, in a world where
  -- the stored states of the resources are `reads`, one of which takes the task; `Stored` says so
  -- of a world, and it is kept by the clock, fresh ids, ranging over the resources, and status
  -- updates, but not by storing a state. States are read and stored without errors, and each
  -- registered resource has a provider that creates every batch. Then the tick has a batch
  -- created and deletes the message: both what creating a batch brings about (`R`), if the
  -- clock, status updates and the deletion keep it, and what the deletion brings about (`Q`),
  -- such as "the message with this receipt is not in the queue", if the clock and status updates
  -- keep it, hold after the tick. Status updates and the deletion may fail, but do not panic.
  pub tick-dispatches :
      (Q : W → Type 0) (url receipt : String) (w : W)
      → a.tasks.context ≡ some url
      → (a.tasks.repository.pick_task_from_queue url w).0
        ≡ ok ((record { task = some task; receipt_handle = receipt }) ∷ [])
      → Stored (a.tasks.repository.pick_task_from_queue url w).1
      → ((w : W) → Q w → Q (rt.now w).1)
      → ((w : W) → R w → R (rt.now w).1)
      → ((id : String) (m : Updates) → Keeps Q (a.tasks.repository.update_task_status id m))
      → ((id : String) (m : Updates) → Keeps R (a.tasks.repository.update_task_status id m))
      → ((id : String) (m : Updates) → Returns (a.tasks.repository.update_task_status id m))
      → Returns (a.tasks.repository.delete_task_from_queue url receipt)
      → ((w : W) → Q (a.tasks.repository.delete_task_from_queue url receipt w).1)
      → Keeps R (a.tasks.repository.delete_task_from_queue url receipt)
      → Q (tick rt a w).1 × R (tick rt a w).1
  unfolding tick pick_up_next_available_task handle_records handle_record
  tick-dispatches Q url receipt w init picked stored now after keep keep_batch update delete removes
        delete_keeps =
      let w1 = (a.tasks.repository.pick_task_from_queue url w).1 in
      let (at, w2) = rt.now w1 in
      let w3 = (a.tasks.repository.update_task_status task.id (in_progress at) w2).1 in
      let (reply, replied, settled, brought) =
        process_fn-Settles w3 (update_keeps task.id (in_progress at) w2 (now_keeps w1 stored)) in
      let v = (process_fn rt a task w3).1 in
      (
        ground (
          arith,
          init,
          picked,
          update task.id (in_progress at) w2,
          replied,
          finish_record-removes Q a.tasks url rt receipt now keep delete removes reply v settled,
        ),
        ground (
          arith,
          init,
          picked,
          update task.id (in_progress at) w2,
          replied,
          finish_record-Keeps R a.tasks url rt after keep_batch receipt reply (inr delete_keeps) v
              brought,
        ),
      )
