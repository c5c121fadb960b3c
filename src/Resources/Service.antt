-- ===== src/Resources/Service.antt =====
-- pkg/api/business/resources/service.go: the registry of resources, and the choice of one.
-- The repository is the interface of the source; logging is left out.
use Prim.Native.String as Text
use bfo.Common.{
  Res, ok, fail, panic, ℕ, String, Bool, Option, none, some, List, [], ◌∷◌, Int64, add64, gt64,
  ge64, quot64, if◌then◌else◌, ◌==◌, Io, GoError, plain, wrap, ◌<>◌, pure, always, on_error,
  catch_error, ◌>>=◌, Map, lookup, insert, keys, Runtime,
}
use bfo.Tasks.Types.{TaskMessage, Task}
use bfo.Resources.Types.{ResourceInstanceState, ConfigResource, Provider}

pub record Repository (W : Type 0) : Type 0 where
  pub get_resource_instance_state : String → Io W (Option ResourceInstanceState)
  pub put_resource_instance_state : ResourceInstanceState → Io W (Unit {0})

-- A provider function may hand back a nil interface.
abbrev pub ProviderFn : Type 0 → Type 0
ProviderFn W = ConfigResource → Option (Provider W)

pub record Service (W : Type 0) : Type 0 where
  pub config : Map ConfigResource
  pub repository : Repository W
  pub providers : Map (ProviderFn W)
  pub resources : Map (Option (Provider W))
  pub resource_configs : Map ConfigResource

module _ {W : Type 0} where
  unfoldable pub new_service : Map ConfigResource → Repository W → Service W
  new_service config repository = record {
    config = config;
    repository = repository;
    providers = [];
    resources = [];
    resource_configs = [];
  }

  unfoldable pub add_provider : String → ProviderFn W → Service W → Service W
  add_provider key provider_fn s = record s { providers = insert key provider_fn s.providers }

-- `estimateTokens`: a quarter of the bytes of all messages. `len` counts the bytes of a text.
unfoldable pub char_count : Int64 → List TaskMessage → Int64
char_count count [] = count
char_count count (m ∷ ms) = char_count (add64 count (Text.len m.content)) ms

unfoldable pub estimate_tokens : Task → Int64
unfolding char_count
estimate_tokens task = quot64 (char_count 0 task.messages) 4

-- the estimate is filled in where the task has none
unfoldable pub with_estimate : Task → Task
unfolding estimate_tokens
with_estimate task =
    if task.estimated_input_tokens == 0
    then record task { estimated_input_tokens = estimate_tokens task }
    else task

abbrev pub token_need : Task → Int64
token_need task = add64 task.estimated_input_tokens task.max_tokens

-- The two tests that the loop of `FindBestAvailableResource` makes of a state that it has read.
unfoldable pub can_take : Task → ResourceInstanceState → Bool
can_take task state =
    if gt64 (token_need task) state.max_tokens_per_batch
    then Bool.false
    else if ge64 state.active_batches state.max_concurrent_batches
    then Bool.false
    else Bool.true

unfoldable pub initial_state : String → ConfigResource → ℕ → ResourceInstanceState
initial_state key config now = record {
  last_activity_time = now;
  resource_instance_id = key;
  provider_name = config.provider;
  state = [];
  current_token_load = 0;
  active_batches = 0;
  max_concurrent_batches = 8;
  tokens_per_minute = 1000;
  max_tokens_per_batch = 1000;
  version = 1;
}

module _ {W : Type 0} (rt : Runtime W) where
  -- A state that cannot be read is created.
  unfoldable pub initialize_state : Repository W → String → ConfigResource → Io W (Option GoError)
  initialize_state repository key config = do
    unread ← catch_error (repository.get_resource_instance_state key)
    elim unread [
      | none ↦ pure none
      | some _ ↦ (do
        now ← always rt.now
        catch_error (
            on_error (wrap ("failed to initialize resource state for " <> key))
              (repository.put_resource_instance_state (initial_state key config now))))
    ]

  -- The service comes back changed also where an error does.
  unfoldable pub add_resource :
      Service W → String → ConfigResource → Io W (Service W × Option GoError)
  add_resource s key config =
      if config.disabled then pure (s, none) else (elim (lookup config.provider s.providers) [
        | none ↦ pure (
          s,
          some (
              plain
                ("provider '" <> config.provider <> "' not found for resource '" <> key <> "'")),
        )
        | some provider_fn ↦ (do
          e ← initialize_state s.repository key config
          pure (
            record s {
              resources = insert key (provider_fn config) s.resources;
              resource_configs = insert key config s.resource_configs;
            },
            e,
          ))
      ])

  -- The loop of `Init`, over the keys of the configuration; the first error ends it.
  unfoldable pub add_resources : Service W → List String → Io W (Service W × Option GoError)
  add_resources s [] = pure (s, none)
  add_resources s (key ∷ rest) = elim (lookup key s.config) [
    | none ↦ add_resources s rest
    | some config ↦
        (add_resource s key config >>= λ (added, e). elim e [
          | none ↦ add_resources added rest
          | some err ↦ pure (added, some err)
        ])
  ]

  unfoldable pub init : Service W → Io W (Service W × Option GoError)
  unfolding add_resources
  init s = do order ← always (rt.range_keys (keys s.config)); add_resources s order

-- `FindBestAvailableResource`: a state that cannot be read, or is nil, is skipped.
abbrev pub readable : Res (Option ResourceInstanceState) → Res (Option ResourceInstanceState)
readable (ok state) = ok state
readable (fail _) = ok none
readable panic = panic

abbrev pub takes : Task → Option ResourceInstanceState → Bool
takes task none = Bool.false
takes task (some state) = can_take task state

module _ {W : Type 0} where
  unfoldable pub read_state : Repository W → String → Io W (Option ResourceInstanceState)
  read_state repository key w =
      let (r, w') = repository.get_resource_instance_state key w in (readable r, w')

  -- The loop, over the keys in the order of the `range`; it stops at the first candidate.
  unfoldable pub find_from : Repository W → Task → List String → Io W (Option String)
  find_from repository task [] = pure none
  find_from repository task (key ∷ keys) =
      let rest = find_from repository task keys in
      read_state repository key >>= λ state. if takes task state then pure (some key) else rest

  abbrev pub chosen : Service W → Option String → Option (Provider W × String)
  chosen s none = none
  chosen s (some key) = elim (lookup key s.resources) [
    | none ↦ none
    | some none ↦ none
    | some (some provider) ↦ some (provider, key)
  ]

  -- The task comes back with its estimate; a result of `none` is the error of the source, and so is
  -- a candidate whose provider is nil.
  unfoldable pub find_best_available_resource :
      Runtime W → Service W → Task → Io W (Task × Option (Provider W × String))
  find_best_available_resource rt s task = do
    let task = with_estimate task
    order ← always (rt.range_keys (keys s.resources))
    found ← find_from s.repository task order
    pure (task, chosen s found)
