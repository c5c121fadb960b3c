-- ===== src/Adapters/DynamoDbStore.antt =====
-- pkg/api/adapters/dynamodb_store/dynamodb_store.go: the store over the SDK's client. The client
-- and the marshalling of values are the AWS SDK's: they are parameters. Logging is left out.
use bfo.Common.{
  String, Bool, true, false, Option, none, some, List, Io, Res, ok, fail, panic, GoError, wrap,
  external, ExternalKind, ◌<>◌, pure, raise, lift, on_error, crash, chain_has, if◌then◌else◌, ◌>>=◌,
  ◌>>◌, [], ◌∷◌, str_eq,
}
use bfo.Adapters.Sdk.{LoadOption, with_shared_config_profile, with_region, Sdk}
use bfo.Adapters.DynamoDbEndpoint.{EndpointResolver}

pub record Config : Type 0 where
  pub connection_endpoint : String
  pub connection_profile : String
  pub connection_region : String

-- The calls of the SDK that the store makes; `Item` is a map of attribute values.
pub record Client (W Item : Type 0) : Type 0 where
  pub describe_table : String → Io W (Unit {0})
  -- a table with one string attribute as its hash key
  pub create_table : String → String → Io W (Unit {0})
  pub wait_table_exists : String → Io W (Unit {0})
  pub scan : String → Io W (List Item)
  pub get_item : String → String → String → Io W (Option Item)
  pub put_item : String → Item → Io W (Unit {0})
  pub delete_item : String → String → String → Io W (Unit {0})

-- `attributevalue.MarshalMap` and its inverses, at one type of values.
pub record Codec (Item A : Type 0) : Type 0 where
  pub marshal_map : A → Res Item
  pub unmarshal_map : Item → Res A
  pub unmarshal_list : List Item → Res (List A)

-- `errors.As(err, &notFoundEx)`
abbrev pub is_not_found_kind : GoError → Bool
is_not_found_kind (external ExternalKind.resource_not_found _) = true
is_not_found_kind _ = false

unfoldable pub is_not_found : GoError → Bool
unfolding chain_has
is_not_found e = chain_has is_not_found_kind e

module _ {W Item : Type 0} (client : Client W Item) where
  unfoldable pub create_table : String → String → Io W (Unit {0})
  create_table table key = do
    on_error (wrap ("failed to create table " <> table)) (client.create_table table key)
    on_error (wrap ("error waiting for table " <> table <> " to exist"))
        (client.wait_table_exists table)

  abbrev pub after_describe : String → String → Res (Unit {0}) → Io W (Unit {0})
  after_describe table key (ok _) = pure tt
  after_describe table key (fail e) =
      if is_not_found e
      then create_table table key
      else raise (wrap ("failed to describe table " <> table) e)
  after_describe table key panic = crash

  unfoldable pub ensure_table_exists : String → String → Io W (Unit {0})
  ensure_table_exists table key w =
      let (r, w') = client.describe_table table w in after_describe table key r w'

  module _ {A : Type 0} (codec : Codec Item A) where
    unfoldable pub list_items : String → Io W (List A)
    list_items table = do
      items ← on_error (wrap ("dynamodb.Scan failed for table " <> table)) (client.scan table)
      on_error (wrap ("attributevalue.UnmarshalListOfMaps failed for table " <> table))
          (lift (codec.unmarshal_list items))

    -- `none` is the result `false`: no such item.
    unfoldable pub get_item : String → String → String → Io W (Option A)
    get_item table field value = do
      found ← on_error (wrap "dynamodb.GetItem failed for item") (client.get_item table field value)
      elim found [
        | none ↦ pure none
        | some item ↦ (do
          a ←
              on_error (wrap "attributevalue.UnmarshalMap failed for getting item")
                (lift (codec.unmarshal_map item))
          pure (some a))
      ]

    unfoldable pub upsert_item : String → A → Io W (Unit {0})
    upsert_item table a = do
      item ←
          on_error (wrap "attributevalue.MarshalMap failed for item") (lift (codec.marshal_map a))
      on_error (wrap "dynamodb.PutItem failed for upsert") (client.put_item table item)

  unfoldable pub delete_item : String → String → String → Io W (Unit {0})
  delete_item table field value =
      on_error (wrap "dynamodb.DeleteItem failed for item") (client.delete_item table field value)

-- The options of `Init` that are not empty texts.
unfoldable pub resolvers : Config → List EndpointResolver
resolvers config =
    if str_eq config.connection_endpoint ""
    then []
    else (record { endpoint_url = config.connection_endpoint }) ∷ []

unfoldable pub load_options : Config → List LoadOption
load_options config =
    let region =
      if str_eq config.connection_region ""
      then []
      else with_region config.connection_region ∷ [] in
    if str_eq config.connection_profile ""
    then region
    else with_shared_config_profile config.connection_profile ∷ region

-- `Init`; the result is the client that the store keeps.
unfoldable pub init :
    {W Item Cfg : Type 0}
    → Sdk W Cfg EndpointResolver (Client W Item)
    → Config
    → Io W (Client W Item)
init sdk config = do
  sdk_config ←
      on_error (wrap "failed to load AWS SDK config")
        (sdk.load_default_config (load_options config))
  pure (sdk.new_from_config sdk_config (resolvers config))
