-- ===== src/Adapters/StateTable.antt =====
-- pkg/api/adapters/repository/repository_resource_instances.go over the store: the states of the
-- resources as a map from ids.
use mathlib.Core.Option.{map as option_map}
use bfo.Common.{
  ◌≡◌, refl, String, Option, none, some, List, [], ◌∷◌, arith, ok, Io, pure, ◌>>=◌, ◌>>◌,
  if◌then◌else◌, str_eq,
}
use bfo.Resources.Types.{ResourceInstanceState}
use bfo.Adapters.DynamoDbStore.{get_item, upsert_item, delete_item}
use bfo.Adapters.Repository.{
  Repository, get_resource_instance_state, put_resource_instance_state,
  delete_resource_instance_state,
}

-- The calls of the repository on resource states, and their answers on a map.
pub data Command : Type 0 where
  get : String → Command
  put : ResourceInstanceState → Command
  delete : String → Command

abbrev pub States : Type 0
States = String → Option ResourceInstanceState

abbrev pub answer : Command → States → Option ResourceInstanceState
answer (get id) m = m id
answer (put _) m = none
answer (delete _) m = none

abbrev pub change : Command → States → States
change (get _) m id = m id
change (put state) m id = if str_eq id state.resource_instance_id then some state else m id
change (delete gone) m id = if str_eq id gone then none else m id

abbrev pub answers : List Command → States → List (Option ResourceInstanceState)
answers [] m = []
answers (c ∷ cs) m = answer c m ∷ answers cs (change c m)

abbrev pub changes : List Command → States → States
changes [] m = m
changes (c ∷ cs) m = changes cs (change c m)

module _ {W Item : Type 0} (r : Repository W Item) where
  abbrev pub call : Command → Io W (Option ResourceInstanceState)
  call (get id) = get_resource_instance_state r id
  call (put state) = put_resource_instance_state r state >> pure none
  call (delete id) = delete_resource_instance_state r id >> pure none

  abbrev pub calls : List Command → Io W (List (Option ResourceInstanceState))
  calls [] = pure []
  calls (c ∷ cs) = do a ← call c; rest ← calls cs; pure (a ∷ rest)

abbrev pub Shows :
    {W Item : Type 0}
    → (W → String → Option Item)
    → (ResourceInstanceState → Item)
    → W
    → States
    → Type 0
Shows view item_of w m = (id : String) → view w id ≡ option_map item_of (m id)

module _ {W Item : Type 0} (r : Repository W Item) (view : W → String → Option Item)
    (item_of : ResourceInstanceState → Item) (id_of : Item → String)
    (marshals : (a : ResourceInstanceState) → r.states.marshal_map a ≡ ok (item_of a))
    (unmarshals : (a : ResourceInstanceState) → r.states.unmarshal_map (item_of a) ≡ ok a)
    (ids : (a : ResourceInstanceState) → id_of (item_of a) ≡ a.resource_instance_id)
    (reads : (w : W) (id : String)
      → (r.store.get_item "resource_states" "ResourceInstanceId" id w).0 ≡ ok (view w id))
    (reading : (w : W) (id other : String)
      → view (r.store.get_item "resource_states" "ResourceInstanceId" id w).1 other ≡ view w other)
    (puts : (w : W) (item : Item) → (r.store.put_item "resource_states" item w).0 ≡ ok tt)
    (putting : (w : W) (item : Item) (other : String)
      → view (r.store.put_item "resource_states" item w).1 other
        ≡ (if str_eq other (id_of item) then some item else view w other))
    (deletes : (w : W) (id : String)
      → (r.store.delete_item "resource_states" "ResourceInstanceId" id w).0 ≡ ok tt)
    (deleting : (w : W) (id other : String)
      → view (r.store.delete_item "resource_states" "ResourceInstanceId" id w).1 other
        ≡ (if str_eq other id then none else view w other)) where
  call-answer :
      (c : Command) (w : W) (m : States) → Shows view item_of w m → (call r c w).0 ≡ ok (answer c m)
  unfolding get_resource_instance_state put_resource_instance_state delete_resource_instance_state
      get_item upsert_item delete_item
  call-answer (get id) w m shows = grind (arith, reads w id, shows id, unmarshals)
  call-answer (put state) w m shows = grind (arith, marshals, puts)
  call-answer (delete id) w m shows = grind (arith, deletes)

  call-change :
      (c : Command) (w : W) (m : States)
      → Shows view item_of w m
      → Shows view item_of (call r c w).1 (change c m)
  unfolding get_resource_instance_state put_resource_instance_state delete_resource_instance_state
      get_item upsert_item delete_item
  call-change (get id) w m shows other =
      grind (arith, reads w id, reading w id other, shows other, unmarshals)
  call-change (put state) w m shows other =
      grind (arith, marshals state, puts, putting w (item_of state) other, ids state, shows other)
  call-change (delete id) w m shows other = grind (arith, deletes, deleting w id other, shows other)

  -- The calls of the repository on resource states do what they do on a map from ids to states:
  -- `view` reads the items of the table out of the outside world; the store reads, puts and
  -- deletes items as `view` says, without errors, and a state comes back from its item, with
  -- its id. Then, from a world that shows the map `m`, any sequence of get, put and delete
  -- gives the answers that it gives on `m`, and leaves a world that shows the map that it
  -- leaves.
  pub calls-changes :
      (cs : List Command) (w : W) (m : States)
      → Shows view item_of w m
      → ((calls r cs w).0 ≡ ok (answers cs m)) × Shows view item_of (calls r cs w).1 (changes cs m)
  calls-changes [] w m shows = (refl, shows)
  calls-changes (c ∷ cs) w m shows =
      let tail = calls-changes cs (call r c w).1 (change c m) (call-change c w m shows) in
      (
        ground (arith, call-answer c w m shows, tail.0),
        λ id. ground (arith, call-answer c w m shows, tail.0, tail.1 id),
      )
