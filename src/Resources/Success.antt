-- ===== src/Resources/Success.antt =====
-- pkg/api/business/resources/service.go, `TryProcessTask`: when a task is dispatched.
use mathlib.Core.List.{Memᴰ}
use bfo.Common.{
  is_ok, List, ◌≡◌, ◌∙◌, inl, inr, refl, true, Option, some, none, String, arith, ok, Runtime,
  Succeeds, lookup, keys, Time, if◌then◌else◌, str_eq, ◌==◌, ◌>>=◌,
}
use bfo.Tasks.Types.{Task}
use bfo.Tasks.Service.{success, with_id, with_created_at}
use bfo.Resources.Types.{ResourceInstanceState, Provider, CreateBatchRequest, Batch}
use bfo.Resources.Service.{
  Service, can_take, takes, find_best_available_resource, with_estimate, estimate_tokens,
}
use bfo.Resources.Dispatch.{
  book, batch_request, settle_batch, create_batch, dispatch_task, dispatch_reply, try_process_task,
}
use bfo.Resources.Choice.{find_from-first, Memᴰ-All}

-- Each batch that the provider is asked for is created.
abbrev pub Accepts : {W : Type 0} → Provider W → Type 0
Accepts {W} provider =
    (request : CreateBatchRequest) (w : W)
    → (batch : Batch) × ((provider.create_batch request w).0 ≡ ok (some batch))

-- The id and the time of a task do not matter to the choice.
takes-named :
    (task : Task) (id : String) (at : Time) (state : Option ResourceInstanceState)
    → takes (with_estimate (record task { id = id; created_at = at })) state
      ≡ takes (with_estimate task) state
unfolding with_estimate estimate_tokens can_take
takes-named task id at none = refl
takes-named task id at (some state) = ground arith

with_id-gives :
    {W : Type 0} (rt : Runtime W) (task : Task) (w : W)
    → (id : String) × ((with_id rt task w).0 ≡ ok (record task { id = id }))
unfolding with_id
with_id-gives rt task w = (if str_eq task.id "" then (rt.unique_id w).0 else task.id, ground arith)

with_created_at-gives :
    {W : Type 0} (rt : Runtime W) (task : Task) (w : W)
    → (at : Time) × ((with_created_at rt task w).0 ≡ ok (record task { created_at = at }))
unfolding with_created_at
with_created_at-gives rt task w =
    (if task.created_at == 0 then (rt.now w).0 else task.created_at, ground arith)

module _ {W : Type 0} (rt : Runtime W) (s : Service W)
    (reads : String → Option ResourceInstanceState) (Stored : W → Type 0)
    (read : (key : String) (w : W)
      → Stored w
      → s.repository.get_resource_instance_state key w ≡ (ok (reads key), w))
    (now_keeps : (w : W) → Stored w → Stored (rt.now w).1)
    (id_keeps : (w : W) → Stored w → Stored (rt.unique_id w).1)
    (range_keeps : (ks : List String) (w : W) → Stored w → Stored (rt.range_keys ks w).1)
    (puts : (state : ResourceInstanceState)
      → Succeeds (s.repository.put_resource_instance_state state))
    (Good : Provider W → Type 0) (good : (provider : Provider W) → Good provider → Accepts provider)
    (serves : (key : String) (w : W)
      → Memᴰ key (rt.range_keys (keys s.resources) w).0
      → (provider : Provider W) × (lookup key s.resources ≡ some (some provider))
        × Good provider) where
  dispatch_task-accepted :
      (provider : Provider W)
      → Accepts provider
      → (key : String) (task : Task) (state : ResourceInstanceState) (w : W) → Stored w
      → reads key ≡ some state
      → is_ok (dispatch_task rt s key provider task w).0 ≡ true
  unfolding dispatch_task create_batch settle_batch
  dispatch_task-accepted provider accepts key task state w q stored =
      let (now, w1) = rt.now w in
      let booked = book task now state in
      let w2 = (s.repository.put_resource_instance_state booked w1).1 in
      let (batch, made) = accepts (batch_request key task) w2 in
      ground (arith, read key w q, stored, puts booked w1, made)

  -- What is found, when one of the keys has a state that takes the task.
  find_best-served :
      (task : Task) (key : String) (w : W)
      → Stored w
      → Memᴰ key (rt.range_keys (keys s.resources) w).0
      → takes (with_estimate task) (reads key) ≡ true
      → (k : String) × (provider : Provider W) × Good provider
        × (takes (with_estimate task) (reads k) ≡ true)
        × ((find_best_available_resource rt s task w).0
            ≡ ok (with_estimate task, some (provider, k)))
        × Stored (find_best_available_resource rt s task w).1
  unfolding find_best_available_resource
  find_best-served task key w q there yes_ =
      let (order, v) = rt.range_keys (keys s.resources) w in
      let q' = range_keeps (keys s.resources) w q in
      elim (find_from-first s.repository (with_estimate task) reads v (λ k. read k v q') order) [
        | inl (e, all) ↦ cc (
            Memᴰ-All s.repository (with_estimate task) reads v (λ k. read k v q') key order there
              all)
        | inr (k, e, m, t) ↦
            let (provider, registered, accepts) = serves k w m in
            (
              k,
              provider,
              accepts,
              t,
              ground (arith, e, registered),
              ground (arith, e, registered, q'),
            )
      ]

  takes-stored :
      (task : Task) (found : Option ResourceInstanceState)
      → takes task found ≡ true
      → (state : ResourceInstanceState) × (found ≡ some state)
  takes-stored task none yes_ = ground arith
  takes-stored task (some state) yes_ = (state, refl)

  -- from the task with its id and its time on
  filled-success :
      (task : Task) (key : String) (w : W)
      → Stored w
      → Memᴰ key (rt.range_keys (keys s.resources) w).0
      → takes (with_estimate task) (reads key) ≡ true
      → ((find_best_available_resource rt s task >>= λ found. dispatch_reply rt s found.0 found.1)
          w).0
        ≡ ok (record { task = with_estimate task; result = success; error = none })
  unfolding dispatch_reply
  filled-success task key w q there yes_ =
      let (k, provider, accepts, t, found, q') = find_best-served task key w q there yes_ in
      let (state, stored) = takes-stored (with_estimate task) (reads k) t in
      let v = (find_best_available_resource rt s task w).1 in
      ground (
        arith,
        found,
        dispatch_task-accepted provider (good provider accepts) k (with_estimate task) state v q'
            stored,
      )

  with_id-Stored : (task : Task) (w : W) → Stored w → Stored (with_id rt task w).1
  unfolding with_id
  with_id-Stored task w q = grind (arith, id_keeps w q)

  with_created_at-Stored : (task : Task) (w : W) → Stored w → Stored (with_created_at rt task w).1
  unfolding with_created_at
  with_created_at-Stored task w q = grind (arith, now_keeps w q)

  -- `TryProcessTask` answers with a success, where a resource takes the task and all calls
  -- succeed.
  pub try_process_task-success :
      (task : Task) (key : String)
      → ((w : W) → Memᴰ key (rt.range_keys (keys s.resources) w).0)
      → takes (with_estimate task) (reads key) ≡ true
      → (w : W) → Stored w
      → (t : Task) × ((try_process_task rt s task w).0
          ≡ ok (record { task = t; result = success; error = none }))
  unfolding try_process_task
  try_process_task-success task key there yes_ w q =
      let v = (with_id rt task w).1 in
      let (id, named) = with_id-gives rt task w in
      let (at, timed) = with_created_at-gives rt (record task { id = id }) v in
      let filled : Task = record task { id = id; created_at = at } in
      let u = (with_created_at rt (record task { id = id }) v).1 in
      let q2 = with_created_at-Stored (record task { id = id }) v (with_id-Stored task w q) in
      (
        with_estimate filled,
        ground (
          arith,
          named,
          timed,
          filled-success filled key u q2 (there u) (takes-named task id at (reads key) ∙ yes_),
        ),
      )

  -- What creating a batch brings about holds after the task was dispatched.
  module _ (R : W → Type 0)
      (brings : (provider : Provider W)
        → Good provider
        → (request : CreateBatchRequest) (w : W) → R (provider.create_batch request w).1) where
    dispatch_task-brings :
        (provider : Provider W)
        → Good provider
        → (key : String) (task : Task) (state : ResourceInstanceState) (w : W) → Stored w
        → reads key ≡ some state
        → R (dispatch_task rt s key provider task w).1
    unfolding dispatch_task create_batch settle_batch
    dispatch_task-brings provider accepts key task state w q stored =
        let (now, w1) = rt.now w in
        let booked = book task now state in
        let w2 = (s.repository.put_resource_instance_state booked w1).1 in
        let (batch, made) = good provider accepts (batch_request key task) w2 in
        ground (
          arith,
          read key w q,
          stored,
          puts booked w1,
          made,
          brings provider accepts (batch_request key task) w2,
        )

    filled-brings :
        (task : Task) (key : String) (w : W)
        → Stored w
        → Memᴰ key (rt.range_keys (keys s.resources) w).0
        → takes (with_estimate task) (reads key) ≡ true
        → R
            ((find_best_available_resource rt s task >>= λ found.
                dispatch_reply rt s found.0 found.1)
              w).1
    unfolding dispatch_reply
    filled-brings task key w q there yes_ =
        let (k, provider, accepts, t, found, q') = find_best-served task key w q there yes_ in
        let (state, stored) = takes-stored (with_estimate task) (reads k) t in
        let v = (find_best_available_resource rt s task w).1 in
        ground (
          arith,
          found,
          dispatch_task-brings provider accepts k (with_estimate task) state v q' stored,
        )

    pub try_process_task-brings :
        (task : Task) (key : String)
        → ((w : W) → Memᴰ key (rt.range_keys (keys s.resources) w).0)
        → takes (with_estimate task) (reads key) ≡ true
        → (w : W) → Stored w
        → R (try_process_task rt s task w).1
    unfolding try_process_task
    try_process_task-brings task key there yes_ w q =
        let v = (with_id rt task w).1 in
        let (id, named) = with_id-gives rt task w in
        let (at, timed) = with_created_at-gives rt (record task { id = id }) v in
        let filled : Task = record task { id = id; created_at = at } in
        let u = (with_created_at rt (record task { id = id }) v).1 in
        let q2 = with_created_at-Stored (record task { id = id }) v (with_id-Stored task w q) in
        ground (
          arith,
          named,
          timed,
          filled-brings filled key u q2 (there u) (takes-named task id at (reads key) ∙ yes_),
        )
