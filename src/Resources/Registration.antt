-- ===== src/Resources/Registration.antt =====
-- pkg/api/business/resources/service.go, `Init` and `AddResource`: which resources are registered.
use mathlib.Core.Path.{subst}
use mathlib.Core.List.{Memᴰ}
use bfo.Common.{
  ◌≡◌, ◌≢◌, ◌∙◌, refl, sym, ap, ok, none, some, Option, String, List, [], ◌∷◌, arith, lookup,
  insert, keys, lookup-insert, Option-cases, inl, inr, Runtime, Res-cases, returned, failed,
  panicked,
}
use bfo.Resources.Types.{ConfigResource, Provider}
use bfo.Resources.Service.{Service, add_resource, add_resources, init}
use bfo.Resources.Addition.{
  wanted, add_resource-cases, Comes, Has, wanted_disabled, wanted_enabled, insert-Has,
}

module _ {W : Type 0} (rt : Runtime W) (s0 : Service W) where
  -- What one addition makes of the registry.
  record Adds (s s' : Service W) (key : String) : Type 0 where
    comes : Comes s0 s'
    has : Has s0 s' key
    still : (k : String) → Has s0 s k → Has s0 s' k

  unwanted-Has : (s : Service W) (key : String) → Comes s0 s → wanted s0 key ≡ none → Has s0 s key
  unwanted-Has s key c unwanted = elim (c.entries key) [
    | inl empty ↦ empty ∙ sym unwanted
    | inr h ↦ h
  ]

  entry-Adds :
      (s : Service W) (key : String) (config : ConfigResource) (entry : Option (Provider W))
      → lookup key s0.config ≡ some config
      → wanted s0 key ≡ some entry
      → Comes s0 s
      → Adds s
          (record s {
            resources = insert key entry s.resources;
            resource_configs = insert key config s.resource_configs;
          })
          key
  entry-Adds s key config entry there is_wanted c = record {
    comes = record {
      same_config = c.same_config;
      same_providers = c.same_providers;
      entries = λ k. elim (insert-Has s0 key config there s k entry is_wanted) [
        | inl same ↦ elim (c.entries k) [ inl empty ↦ inl (same ∙ empty) | inr h ↦ inr (same ∙ h) ]
        | inr h ↦ inr h
      ];
    };
    has = lookup-insert key entry s.resources ∙ sym is_wanted;
    still = λ k h. elim (insert-Has s0 key config there s k entry is_wanted) [
      | inl same ↦ same ∙ h
      | inr h' ↦ h'
    ];
  }

  add_resource-Adds :
      (s : Service W) (key : String) (config : ConfigResource) (w : W) (s' : Service W)
      → lookup key s0.config ≡ some config
      → Comes s0 s
      → (add_resource rt s key config w).0 ≡ ok (s', none)
      → Adds s s' key
  add_resource-Adds s key config w s' there c added =
      elim (add_resource-cases rt s key config w s' added) [
        | inl (disabled, same) ↦
            subst (λ x. Adds s x key) (sym same)
              (record {
                comes = c;
                has = unwanted-Has s key c (wanted_disabled s0 key config there disabled);
                still = λ k h. h;
              })
        | inr (enabled, (provider_fn, known, same)) ↦
            subst (λ x. Adds s x key) (sym same)
              (entry-Adds s key config (provider_fn config) there
                (wanted_enabled s0 key config there provider_fn enabled
                  (ap (lookup config.provider) (sym c.same_providers) ∙ known))
                c)
      ]

  -- What the loop makes of it.
  record AddsAll (order : List String) (s s' : Service W) : Type 0 where
    comes : Comes s0 s'
    has : (key : String) → Memᴰ key order → Has s0 s' key
    still : (k : String) → Has s0 s k → Has s0 s' k

  Memᴰ-Has :
      (s : Service W) (key k : String) (order : List String)
      → Has s0 s key
      → ((x : String) → Memᴰ x order → Has s0 s x)
      → Memᴰ k (key ∷ order)
      → Has s0 s k
  Memᴰ-Has s key k order h rest (Memᴰ.head same) = subst (Has s0 s) (sym same) h
  Memᴰ-Has s key k order h rest (Memᴰ.tail m) = rest k m

  -- A loop that reports no error has added the first key without one.
  add_resources-split :
      (order : List String) (s : Service W) (key : String) (config : ConfigResource) (w : W)
      (s' : Service W)
      → lookup key s.config ≡ some config
      → (add_resources rt s (key ∷ order) w).0 ≡ ok (s', none)
      → (added : Service W) × ((add_resource rt s key config w).0 ≡ ok (added, none))
        × ((add_resources rt added order (add_resource rt s key config w).1).0 ≡ ok (s', none))
  unfolding add_resources
  add_resources-split order s key config w s' there done =
      elim (Res-cases (add_resource rt s key config w).0) [
        | returned (added, none) r ↦ (added, r, ground (arith, there, r))
        | returned (added, some err) r ↦ absurd (ground (arith, there, r))
        | failed err r ↦ absurd (ground (arith, there, r))
        | panicked r ↦ absurd (ground (arith, there, r))
      ]

  add_resources-AddsAll :
      (order : List String) (s : Service W) (w : W) (s' : Service W)
      → Comes s0 s
      → (add_resources rt s order w).0 ≡ ok (s', none)
      → AddsAll order s s'
  unfolding add_resources
  add_resources-AddsAll [] s w s' c added =
      subst (AddsAll [] s) (ground arith)
        (record { comes = c; has = λ k m. elim m [ ]; still = λ k h. h })
  add_resources-AddsAll (key ∷ order) s w s' c added = elim (Option-cases (lookup key s.config)) [
    | inl missing ↦
        let all = add_resources-AddsAll order s w s' c (ground (arith, missing)) in
        let unwanted = unwanted-Has s key c (ground (arith, missing, c.same_config)) in
        record {
          comes = all.comes;
          has = λ k m. Memᴰ-Has s' key k order (all.still key unwanted) all.has m;
          still = all.still;
        }
    | inr (config, there) ↦
        let (middle, first, rest) = add_resources-split order s key config w s' there added in
        let there0 = ap (lookup key) (sym c.same_config) ∙ there in
        let one = add_resource-Adds s key config w middle there0 c first in
        let all =
          add_resources-AddsAll order middle (add_resource rt s key config w).1 s' one.comes rest in
        record {
          comes = all.comes;
          has = λ k m. Memᴰ-Has s' key k order (all.still key one.has) all.has m;
          still = λ k h. all.still k (one.still k h);
        }
  ]

-- `Init` registers exactly what is configured: if no resource is registered before, the range
-- visits every key of the configuration, in any order, and `Init` reports no error, then under
-- each key there is what the function of its provider makes of its configuration, or nothing if
-- the key is not configured or its resource is disabled.
pub init-registers :
    {W : Type 0} (rt : Runtime W) (s : Service W) (w : W) (s' : Service W)
    → ((key : String) → lookup key s.resources ≡ none)
    → ((key : String) → lookup key s.config ≢ none → Memᴰ key (rt.range_keys (keys s.config) w).0)
    → (init rt s w).0 ≡ ok (s', none)
    → (key : String) → lookup key s'.resources ≡ wanted s key
unfolding init
init-registers rt s w s' empty ranges done key =
    let (order, v) = rt.range_keys (keys s.config) w in
    let all =
      add_resources-AddsAll rt s order s v s'
        (record { same_config = refl; same_providers = refl; entries = λ k. inl (empty k) }) done in
    elim (Option-cases (lookup key s.config)) [
      | inl missing ↦ unwanted-Has rt s s' key all.comes (ground (arith, missing))
      | inr (config, there) ↦ all.has key (ranges key (λ e. ground (arith, e, there)))
    ]
