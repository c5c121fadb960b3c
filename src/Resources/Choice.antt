-- ===== src/Resources/Choice.antt =====
-- pkg/api/business/resources/service.go, `FindBestAvailableResource` and `AddResource`: which
-- resource is chosen, and what becomes of a resource whose state was never stored.
use mathlib.Core.List.{Memᴰ}
use bfo.Common.{
  ◌+◌, ◌≤◌, ◌<◌, ◌≡◌, refl, ◌≢◌, ◌↔◌, ◌⊎◌, inl, inr, true, false, Option, none, some, List, [], ◌∷◌,
  String, arith, IsNonNeg, sign_bit, add64, gt64, ge64, ok, All, Bool-cases, Option-cases, lookup,
  insert, Runtime,
}
use bfo.Tasks.Types.{Task}
use bfo.Resources.Types.{ResourceInstanceState, ConfigResource}
use bfo.Resources.Service.{
  Service, Repository, can_take, takes, read_state, find_from, initialize_state, add_resource,
}

-- The two tests mean what they say where no number is negative and the task's need does not
-- overflow: the need is at most the limit per batch, and a batch is free.
pub can_take_iff :
    (task : Task) (state : ResourceInstanceState)
    → task.estimated_input_tokens + task.max_tokens < sign_bit
    → IsNonNeg state.max_tokens_per_batch
    → IsNonNeg state.active_batches
    → IsNonNeg state.max_concurrent_batches
    → (can_take task state ≡ true) ↔ (
        (task.estimated_input_tokens + task.max_tokens ≤ state.max_tokens_per_batch)
        × (state.active_batches < state.max_concurrent_batches))
unfolding can_take gt64 ge64 add64
can_take_iff task state need limit active most = ground arith

-- A need that overflows passes for a small one: if the estimate and the token limit are each zero
-- or more and their sum is 2 ^ 63 or more, the state takes the task, whatever its limit per batch
-- is, as long as that is zero or more and a batch is free.
pub can_take_overflow :
    (task : Task) (state : ResourceInstanceState)
    → IsNonNeg task.estimated_input_tokens
    → IsNonNeg task.max_tokens
    → sign_bit ≤ task.estimated_input_tokens + task.max_tokens
    → IsNonNeg state.max_tokens_per_batch
    → ge64 state.active_batches state.max_concurrent_batches ≡ false
    → can_take task state ≡ true
unfolding can_take gt64 add64
can_take_overflow task state estimate most need limit free = ground arith

module _ {W : Type 0} (repository : Repository W) (task : Task)
    (reads : String → Option ResourceInstanceState) (w : W)
    (read : (key : String)
      → repository.get_resource_instance_state key w ≡ (ok (reads key), w)) where
  -- The search finds a resource exactly when there is one: over a store in which reading `key`
  -- gives `reads key`, and changes nothing, either the loop ends with no candidate and none of the
  -- keys has a state that takes the task, or it gives a key of the list whose state takes it.
  pub find_from-first :
      (keys : List String)
      → ((find_from repository task keys w ≡ (ok none, w))
          × All (λ key. takes task (reads key) ≡ false) keys)
        ⊎ ((key : String) × (find_from repository task keys w ≡ (ok (some key), w))
            × Memᴰ key keys
            × (takes task (reads key) ≡ true))
  unfolding find_from read_state
  find_from-first [] = inl (refl, tt)
  find_from-first (key ∷ keys) = elim (Bool-cases (takes task (reads key))) [
    | inl yes_ ↦ inr (key, ground (arith, read key), Memᴰ.head refl, yes_)
    | inr no_ ↦ elim (find_from-first keys) [
      | inl (e, all) ↦ inl (ground (arith, read key), (no_, all))
      | inr (k, e, m, t) ↦ inr (k, ground (arith, read key), Memᴰ.tail m, t)
    ]
  ]

  pub Memᴰ-All :
      (key : String) (keys : List String)
      → Memᴰ key keys
      → All (λ k. takes task (reads k) ≡ false) keys
      → takes task (reads key) ≡ false
  Memᴰ-All key [] m h = elim m [ ]
  Memᴰ-All key (k ∷ keys) (Memᴰ.head same) h = rw same h.0
  Memᴰ-All key (k ∷ keys) (Memᴰ.tail m) h = Memᴰ-All key keys m h.1

  -- Go leaves the order of the map open, and whether a resource is found does not depend on it: if
  -- the search finds one in some order, it finds one in every order of a list with these keys.
  pub find_from_order :
      (keys others : List String) (key : String)
      → ((k : String) → Memᴰ k keys → Memᴰ k others)
      → find_from repository task keys w ≡ (ok (some key), w)
      → (k : String) × (find_from repository task others w ≡ (ok (some k), w))
        × (takes task (reads k) ≡ true)
  find_from_order keys others key within found = elim (find_from-first keys) [
    | inl (e, _) ↦ cc
    | inr (k, e, m, t) ↦ elim (find_from-first others) [
      | inl (_, all) ↦ cc (Memᴰ-All k others (within k m) all)
      | inr (k', e', m', t') ↦ (k', e', t')
    ]
  ]

-- A resource whose state is not stored never gets one. The store answers nil and no error for it,
-- which `AddResource` takes for a stored state: it registers the resource, reports no error and
-- stores nothing. The search then passes over it, whatever the task, so that over such a store no
-- task finds a resource.
pub add_resource-unstored :
    {W : Type 0} (rt : Runtime W) (s : Service W) (key : String) (config : ConfigResource)
    (task : Task) (keys : List String) (w : W)
    → ((k : String) → s.repository.get_resource_instance_state k w ≡ (ok none, w))
    → lookup config.provider s.providers ≢ none
    → ((s' : Service W) × (add_resource rt s key config w ≡ (ok (s', none), w)))
      × (find_from s.repository task keys w ≡ (ok none, w))
unfolding add_resource initialize_state
add_resource-unstored rt s key config task keys w read known = (
  elim (Bool-cases config.disabled) [
    | inl disabled ↦ (s, ground arith)
    | inr enabled ↦ elim (Option-cases (lookup config.provider s.providers)) [
      | inl unknown ↦ absurd (known unknown)
      | inr (provider_fn, e) ↦ (
        record s {
          resources = insert key (provider_fn config) s.resources;
          resource_configs = insert key config s.resource_configs;
        },
        ground (arith, read key),
      )
    ]
  ],
  elim (find_from-first s.repository task (λ _. none) w read keys) [
    | inl (e, _) ↦ e
    | inr (k, e, m, t) ↦ cc
  ],
)
