-- ===== src/Resources/Starvation.antt =====
-- pkg/api/business/resources/service.go, `TryProcessTask`, where every state that can be read is full.
use bfo.Common.{
  ◌≡◌, ◌≢◌, inl, inr, refl, true, false, Option, none, some, String, List, [], ◌∷◌, arith, ok, ge64,
  Runtime, Bool-cases, Io, ◌>>=◌, keys, Res-cases, returned, failed, panicked,
}
use bfo.Tasks.Types.{Task}
use bfo.Tasks.Service.{Reply, with_id, with_created_at}
use bfo.Tasks.Delivery.{Keeps}
use bfo.Resources.Types.{ResourceInstanceState, Provider}
use bfo.Resources.Service.{
  Service, can_take, takes, read_state, find_from, with_estimate, find_best_available_resource,
}
use bfo.Resources.Dispatch.{dispatch_reply, try_process_task}
use bfo.Resources.Exhaustion.{full-can_take}

-- The call ends where `Q` holds, and with an error if it ends in a reply.
abbrev pub Refuses : {W : Type 0} → (W → Type 0) → Io W Reply → W → Type 0
Refuses Q m w = Q (m w).1 × ((reply : Reply) → (m w).0 ≡ ok reply → reply.error ≢ none)

module _ {W : Type 0} (Q : W → Type 0) (rt : Runtime W) (s : Service W)
    (full : (key : String) (w : W) (state : ResourceInstanceState)
      → Q w
      → (s.repository.get_resource_instance_state key w).0 ≡ ok (some state)
      → ge64 state.active_batches state.max_concurrent_batches ≡ true)
    (reading : (key : String) → Keeps Q (s.repository.get_resource_instance_state key))
    (ranging : (keys : List String) (w : W) → Q w → Q (rt.range_keys keys w).1)
    (naming : (w : W) → Q w → Q (rt.unique_id w).1) (ticking : (w : W) → Q w → Q (rt.now w).1) where
  full-takes :
      (task : Task) (state : ResourceInstanceState)
      → ge64 state.active_batches state.max_concurrent_batches ≡ true
      → takes task (some state) ≡ false
  full-takes task state h = elim (Bool-cases (can_take task state)) [
    | inl yes_ ↦ absurd (full-can_take task state h yes_)
    | inr no_ ↦ no_
  ]

  read-takes :
      (task : Task) (key : String) (w : W) (found : Option ResourceInstanceState)
      → Q w
      → (s.repository.get_resource_instance_state key w).0 ≡ ok found
      → takes task found ≡ false
  read-takes task key w none q e = refl
  read-takes task key w (some state) q e = full-takes task state (full key w state q e)

  find_from-full :
      (task : Task) (keys : List String) (w : W)
      → Q w
      → Q (find_from s.repository task keys w).1
        × ((key : String) → (find_from s.repository task keys w).0 ≢ ok (some key))
  unfolding find_from read_state
  find_from-full task [] w q = (q, λ key e. ground arith)
  find_from-full task (key ∷ keys) w q =
      let w' = (s.repository.get_resource_instance_state key w).1 in
      let (kept, unfound) = find_from-full task keys w' (reading key w q) in
      elim (Res-cases (s.repository.get_resource_instance_state key w).0) [
        | returned found e ↦
            let passed = read-takes task key w found q e in
            (ground (arith, e, passed, kept), λ k same. ground (arith, e, passed, unfound k))
        | failed err e ↦ (ground (arith, e, kept), λ k same. ground (arith, e, unfound k))
        | panicked e ↦ (ground (arith, e, reading key w q), λ k same. ground (arith, e))
      ]

  Refuses->>= :
      {A : Type 0} (m : Io W A) (f : A → Io W Reply) (w : W)
      → Q (m w).1
      → ((a : A) → (m w).0 ≡ ok a → Refuses Q (f a) (m w).1)
      → Refuses Q (m >>= f) w
  Refuses->>= m f w q next = elim (Res-cases (m w).0) [
    | returned a e ↦
        let (kept, refused) = next a e in
        (ground (arith, e, kept), λ reply same. ground (arith, e, refused reply))
    | failed err e ↦ (ground (arith, e, q), λ reply same. ground (arith, e))
    | panicked e ↦ (ground (arith, e, q), λ reply same. ground (arith, e))
  ]

  with_id-Keeps : (task : Task) → Keeps Q (with_id rt task)
  unfolding with_id
  with_id-Keeps task w q = grind (arith, naming w q)

  with_created_at-Keeps : (task : Task) → Keeps Q (with_created_at rt task)
  unfolding with_created_at
  with_created_at-Keeps task w q = grind (arith, ticking w q)

  find_best-full :
      (task : Task) (w : W)
      → Q w
      → Q (find_best_available_resource rt s task w).1
        × ((found : Task × Option (Provider W × String))
            → (find_best_available_resource rt s task w).0 ≡ ok found
            → found.1 ≡ none)
  unfolding find_best_available_resource
  find_best-full task w q =
      let (order, w') = rt.range_keys (keys s.resources) w in
      let (kept, unfound) =
        find_from-full (with_estimate task) order w' (ranging (keys s.resources) w q) in
      elim (Res-cases (find_from s.repository (with_estimate task) order w').0) [
        | returned none e ↦ (ground (arith, e, kept), λ found same. ground (arith, e))
        | returned (some key) e ↦ absurd (unfound key e)
        | failed err e ↦ (ground (arith, e, kept), λ found same. ground (arith, e))
        | panicked e ↦ (ground (arith, e, kept), λ found same. ground (arith, e))
      ]

  dispatch_reply-full :
      (task : Task) (found : Option (Provider W × String)) (w : W)
      → Q w
      → found ≡ none
      → Refuses Q (dispatch_reply rt s task found) w
  unfolding dispatch_reply
  dispatch_reply-full task none w q e = (q, λ reply same. ground arith)
  dispatch_reply-full task (some found) w q e = cc

  pub try_process_task-full : (task : Task) (w : W) → Q w → Refuses Q (try_process_task rt s task) w
  unfolding try_process_task
  try_process_task-full task w q =
      let answer : Task × Option (Provider W × String) → Io W Reply =
        λ found. dispatch_reply rt s found.0 found.1 in
      let find : Task → Io W Reply = λ t. find_best_available_resource rt s t >>= answer in
      let w1 = (with_id rt task w).1 in
      let q1 = with_id-Keeps task w q in
      Refuses->>= (with_id rt task) (λ t. with_created_at rt t >>= find) w q1
        (λ t same.
          let w2 = (with_created_at rt t w1).1 in
          let q2 = with_created_at-Keeps t w1 q1 in
          Refuses->>= (with_created_at rt t) find w1 q2 (λ t' same'.
            let (q3, unfound) = find_best-full t' w2 q2 in
            Refuses->>= (find_best_available_resource rt s t') answer w2 q3 (λ found e.
              dispatch_reply-full found.0 found.1 (find_best_available_resource rt s t' w2).1 q3
                (unfound found e))))
