-- ===== src/Http/ToBatch.antt =====
-- pkg/api/adapters/http/routes_tasks.go and pkg/api/adapters/appcontext/appcontext.go over the
-- services, the repository and the queue: from the request to the batch.
use mathlib.Core.List.{Memᴰ}
use mathlib.Core.Path.{subst}
use bfo.Common.{
  ◌≡◌, ◌∙◌, sym, ap, refl, true, ok, some, Option, List, String, [], ◌∷◌, arith, Runtime, Returns,
  Succeeds, keys, lookup,
}
use bfo.Tasks.Types.{Task, Updates, Config}
use bfo.Tasks.Delivery.{Keeps}
use bfo.Tasks.Service.{Service}
use bfo.Resources.Types.{ResourceInstanceState, Provider}
use bfo.Resources.Service as Resources
use bfo.Resources.Service.{takes, with_estimate}
use bfo.Adapters.Repository.{
  Repository, for_tasks, update_task_status, pick_task_from_queue, delete_task_from_queue,
}
use bfo.Adapters.RoundTrip.{pick-single}
use bfo.AppContext.{tick}
use bfo.AppContext.Completion.{Creates, tick-dispatches}
use bfo.Http.{ok_result, Request, Decoder, put_task}
use bfo.Http.EndToEnd.{IsFor, put_task-IsQueued}

for_tasks-Keeps :
    {W Item : Type 0} (Q : W → Type 0) (r : Repository W Item) (id : String) (m : Updates)
    → Keeps Q ((for_tasks r).update_task_status id m)
unfolding for_tasks update_task_status
for_tasks-Keeps Q r id m w q = q

for_tasks-Returns :
    {W Item : Type 0} (r : Repository W Item) (id : String) (m : Updates)
    → Returns ((for_tasks r).update_task_status id m)
unfolding for_tasks update_task_status
for_tasks-Returns r id m w = ground arith

-- What reads back as one task is one task.
same_task :
    {W Item : Type 0} (r : Repository W Item) (body : String) (t t' : Task)
    → r.json.unmarshal body ≡ ok (some t)
    → r.json.unmarshal body ≡ ok (some t')
    → t ≡ t'
same_task r body t t' first second = ground (arith, first, second)

module _ {W Item Body : Type 0} (r : Repository W Item) (url : String) (request : Request Body)
    (text : Task → String) (read : Task → Task) (InQueue : String → W → Type 0)
    (marshals : (t : Task) → r.json.marshal t ≡ ok (text t))
    (unmarshals : (t : Task) → IsFor request t → r.json.unmarshal (text t) ≡ ok (some (read t)))
    (reads_path : (t : Task) → IsFor request t → IsFor request (read t))
    (sends : (body id : String) (v : W)
      → (r.queue.send_message url body v).0 ≡ ok (some id)
      → InQueue body (r.queue.send_message url body v).1)
    (R : W → Type 0) (rt : Runtime W) (s : Resources.Service W)
    (reads : String → Option ResourceInstanceState) (Stored : W → Type 0)
    (finds : (key : String) (w : W)
      → Stored w
      → s.repository.get_resource_instance_state key w ≡ (ok (reads key), w))
    (now_keeps : (w : W) → Stored w → Stored (rt.now w).1)
    (id_keeps : (w : W) → Stored w → Stored (rt.unique_id w).1)
    (range_keeps : (ks : List String) (w : W) → Stored w → Stored (rt.range_keys ks w).1)
    (puts : (state : ResourceInstanceState)
      → Succeeds (s.repository.put_resource_instance_state state))
    (serves : (key : String) (w : W)
      → Memᴰ key (rt.range_keys (keys s.resources) w).0
      → (provider : Provider W) × (lookup key s.resources ≡ some (some provider))
        × Creates R provider)
    (key : String) (there : (w : W) → Memᴰ key (rt.range_keys (keys s.resources) w).0) where
  -- From the request to the batch. Let a request to PUT a task be answered OK, and let the SDK
  -- receive one message at some world `u`, whose body is the one in the queue after the request;
  -- let it read as a task, which one of the stored states of the resources takes. Then the task is
  -- for the path of the request, and a tick at `u` has a batch created and deletes the message:
  -- what creating a batch brings about (`R`), if the clock and the deletion keep it, and what the
  -- deletion brings about (`Q`), if the clock keeps it, hold after it. Tasks are written without
  -- errors, one for the path reads back as one for the path, and the body of a message that was
  -- sent is in the queue; the stored states are `reads` after the reception (`Stored`), which the
  -- clock, fresh ids and ranging over the resources keep; states are read and stored without
  -- errors; every registered resource has a provider that creates every batch; and the deletion
  -- does not panic.
  pub put_task-tick :
      (Q : W → Type 0) (decoder : Decoder Body) (config : Config) (w u : W) (body handle : String)
      (task : Task)
      → let tasks : Service W = record {
        config = config;
        context = some url;
        repository = for_tasks r;
      } in
        (put_task decoder tasks rt request w).0 ≡ ok ok_result
        → (r.queue.receive_message url r.queue_config.max_number_of_messages
            r.queue_config.wait_time_seconds r.queue_config.visibility_timeout u).0
          ≡ ok ((record { body = some body; receipt_handle = some handle }) ∷ [])
        → ((other : String) → InQueue other (put_task decoder tasks rt request w).1 → other ≡ body)
        → r.json.unmarshal body ≡ ok (some task)
        → takes (with_estimate task) (reads key) ≡ true
        → Stored (pick_task_from_queue r url u).1
        → ((w : W) → Q w → Q (rt.now w).1)
        → ((w : W) → R w → R (rt.now w).1)
        → Returns (delete_task_from_queue r url handle)
        → ((w : W) → Q (delete_task_from_queue r url handle w).1)
        → Keeps R (delete_task_from_queue r url handle)
        → let end = (tick rt (record { tasks = tasks; resources = some s }) u).1 in
          IsFor request task × Q end × R end
  unfolding for_tasks
  put_task-tick Q decoder config w u body handle task answered received only parses fits stored now
        after delete removes keep =
      let tasks : Service W = record {
        config = config;
        context = some url;
        repository = for_tasks r;
      } in
      let (t, for_path, queued) =
        put_task-IsQueued r url request text read InQueue marshals unmarshals reads_path sends
          decoder config rt w answered in
      let reads_back : r.json.unmarshal body ≡ ok (some (read t)) =
        ap r.json.unmarshal (sym (only (text t) queued)) ∙ unmarshals t for_path in
      let picked = pick-single r url body handle task u received parses in
      let (deleted, created) =
        tick-dispatches R rt (record { tasks = tasks; resources = some s }) s refl reads Stored
          finds now_keeps id_keeps range_keeps (for_tasks-Keeps Stored r) puts serves task key there
          fits Q url handle u refl picked stored now after (for_tasks-Keeps Q r)
          (for_tasks-Keeps R r) (for_tasks-Returns r) delete removes keep in
      (
        subst (IsFor request) (same_task r body (read t) task reads_back parses)
            (reads_path t for_path),
        deleted,
        created,
      )
