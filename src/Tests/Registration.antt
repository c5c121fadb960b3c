-- ===== src/Tests/Registration.antt =====
-- The theorem on the registry of resources at a concrete input.
use mathlib.Core.List.{Memᴰ}
use bfo.Common.{
  ◌≡◌, ◌≢◌, refl, true, false, ok, none, some, String, [], ◌∷◌, lookup, insert, arith, eq_iff,
  Bool-cases, inl, inr, str_eq,
}
use bfo.Resources.Types.{ConfigResource}
use bfo.Resources.Service.{Service, init, add_resources, add_resource, initialize_state}
use bfo.Resources.Registration.{init-registers}
use bfo.Tests.{World, start, rt}
use bfo.Tests.Capacity.{pool, refusing}

abbrev gpu_config : ConfigResource
gpu_config = record {
  instances = [];
  models = [];
  properties = [];
  provider = "echo";
  period = 0;
  disabled = false;
}

abbrev configured : Service World
configured = record pool {
  config = ("gpu", gpu_config) ∷ ("cpu", record gpu_config { disabled = true }) ∷ [];
  resources = [];
}

abbrev registered : Service World
registered = record configured {
  resources = ("gpu", some refusing) ∷ [];
  resource_configs = ("gpu", gpu_config) ∷ [];
}

initialised : (init rt configured start).0 ≡ ok (registered, none)
unfolding init add_resources add_resource initialize_state lookup insert
initialised = refl

all_ranged : (key : String) → lookup key configured.config ≢ none → Memᴰ key ("gpu" ∷ "cpu" ∷ [])
unfolding lookup
all_ranged key there = elim (Bool-cases (str_eq key "gpu")) [
  | inl same ↦ Memᴰ.head ((eq_iff key "gpu").0 same)
  | inr other ↦ elim (Bool-cases (str_eq key "cpu")) [
    | inl same ↦ Memᴰ.tail (Memᴰ.head ((eq_iff key "cpu").0 same))
    | inr unknown ↦ absurd (there (ground (arith, other, unknown)))
  ]
]

init-registers_example : lookup "gpu" registered.resources ≡ some (some refusing)
unfolding lookup
init-registers_example =
    init-registers rt configured start registered (λ key. refl) all_ranged initialised "gpu"
