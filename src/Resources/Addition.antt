-- ===== src/Resources/Addition.antt =====
-- pkg/api/business/resources/service.go, `AddResource`: what one addition makes of the registry.
use mathlib.Core.Option.{map as option_map}
use bfo.Common.{
  ◌≡◌, ◌∙◌, sym, ap, true, false, ok, none, some, Option, String, arith, lookup, insert,
  lookup-insert, lookup-insert_other, str_eq, eq_iff, Bool-cases, Option-cases, inl, inr, ◌⊎◌,
  Runtime, if◌then◌else◌, Res-cases, returned, failed, panicked,
}
use bfo.Resources.Types.{ConfigResource, Provider}
use bfo.Resources.Service.{Service, ProviderFn, add_resource, initialize_state}

module _ {W : Type 0} where
  -- What the configuration makes of a key: nothing if the resource is disabled.
  abbrev pub wanted : Service W → String → Option (Option (Provider W))
  wanted s key = elim (lookup key s.config) [
    | none ↦ none
    | some config ↦
        if config.disabled
        then none
        else option_map (λ provider_fn. provider_fn config) (lookup config.provider s.providers)
  ]

module _ {W : Type 0} (rt : Runtime W) where
  -- What an addition that reports no error has done.
  pub add_resource-cases :
      (s : Service W) (key : String) (config : ConfigResource) (w : W) (s' : Service W)
      → (add_resource rt s key config w).0 ≡ ok (s', none)
      → ((config.disabled ≡ true) × (s' ≡ s))
        ⊎ ((config.disabled ≡ false)
            × ((provider_fn : ProviderFn W) × (lookup config.provider s.providers
                  ≡ some provider_fn)
                × (s' ≡ record s {
                  resources = insert key (provider_fn config) s.resources;
                  resource_configs = insert key config s.resource_configs;
                })))
  unfolding add_resource
  add_resource-cases s key config w s' added = elim (Bool-cases config.disabled) [
    | inl disabled ↦ inl (disabled, ground arith)
    | inr enabled ↦ elim (Option-cases (lookup config.provider s.providers)) [
      | inl unknown ↦ absurd (ground arith)
      | inr (provider_fn, known) ↦
          elim (Res-cases (initialize_state rt s.repository key config w).0) [
            | returned e r ↦ inr (enabled, (provider_fn, known, ground (arith, r)))
            | failed err r ↦ absurd (ground (arith, r))
            | panicked r ↦ absurd (ground (arith, r))
          ]
    ]
  ]

-- `s` has come from `s0` by additions.
pub record Comes {W : Type 0} (s0 s : Service W) : Type 0 where
  pub same_config : s.config ≡ s0.config
  pub same_providers : s.providers ≡ s0.providers
  pub entries : (k : String) → (lookup k s.resources ≡ none) ⊎ (lookup k s.resources ≡ wanted s0 k)

abbrev pub Has : {W : Type 0} → Service W → Service W → String → Type 0
Has s0 s k = lookup k s.resources ≡ wanted s0 k

module _ {W : Type 0} (s0 : Service W) (key : String) (config : ConfigResource)
    (there : lookup key s0.config ≡ some config) where
  pub wanted_disabled : config.disabled ≡ true → wanted s0 key ≡ none
  wanted_disabled disabled = ground arith

  pub wanted_enabled :
      (provider_fn : ProviderFn W)
      → config.disabled ≡ false
      → lookup config.provider s0.providers ≡ some provider_fn
      → wanted s0 key ≡ some (provider_fn config)
  wanted_enabled provider_fn enabled known = ground arith

  -- The entry that is assigned is the one that is wanted, and the others stay.
  pub insert-Has :
      (s : Service W) (k : String)
      → (entry : Option (Provider W)) → wanted s0 key ≡ some entry
      → (lookup k (insert key entry s.resources) ≡ lookup k s.resources)
        ⊎ (lookup k (insert key entry s.resources) ≡ wanted s0 k)
  insert-Has s k entry w = elim (Bool-cases (str_eq k key)) [
    | inl same ↦
        let e = (eq_iff k key).0 same in
        inr (
          ap (λ x. lookup x (insert key entry s.resources)) e
          ∙ lookup-insert key entry s.resources
          ∙ sym w
          ∙ ap (wanted s0) (sym e))
    | inr other ↦
        inl (lookup-insert_other k key entry s.resources (λ e. ground (arith, eq_iff k key)))
  ]
