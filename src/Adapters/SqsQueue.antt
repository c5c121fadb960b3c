-- ===== src/Adapters/SqsQueue.antt =====
-- pkg/api/adapters/sqs_queue/sqs_queue.go: the queue over the SDK's client, which is a parameter.
-- Logging is left out.
use bfo.Common.{
  ℕ, ◌-◌, String, Bool, Option, none, some, List, [], ◌∷◌, ◌&&◌, leb, str_eq, Io, Res, ok, fail,
  panic, GoError, external, true, false, wrap, ◌<>◌, error_text, chain_has, ExternalKind,
  if◌then◌else◌, pure, deref, on_error, ◌>>=◌, ◌>>◌,
}
use Prim.Native.String.{len, slice}
use bfo.Adapters.Sdk.{LoadOption, with_shared_config_profile, with_region, Sdk}
use bfo.Adapters.SqsEndpoint.{EndpointResolver}

pub record Message : Type 0 where
  pub body : String
  pub receipt_handle : String

-- A message of the SDK, whose fields are pointers.
pub record RawMessage : Type 0 where
  pub body : Option String
  pub receipt_handle : Option String

pub record Config : Type 0 where
  pub connection_endpoint : String
  pub connection_profile : String
  pub connection_region : String
  pub task_queue_name : String
  pub max_number_of_messages : ℕ  -- an `int32`
  pub wait_time_seconds : ℕ  -- an `int32`
  pub visibility_timeout : ℕ  -- an `int32`

pub record Client (W : Type 0) : Type 0 where
  pub get_queue_url : String → Io W (Option String)  -- `QueueUrl` of the answer
  pub list_queues : Io W (List String)
  pub create_queue : String → Io W (Option String)  -- `QueueUrl` of the answer
  pub send_message : String → String → Io W (Option String)  -- `MessageId` of the answer
  pub receive_message : String → ℕ → ℕ → ℕ → Io W (List RawMessage)
  pub delete_message : String → String → Io W (Unit {0})

-- `errors.Is(err, context.Canceled)`
abbrev pub is_canceled_kind : GoError → Bool
is_canceled_kind (external ExternalKind.context_canceled _) = true
is_canceled_kind _ = false

unfoldable pub is_canceled : GoError → Bool
unfolding chain_has
is_canceled e = chain_has is_canceled_kind e

-- the loop over the SDK's messages; a nil field panics
unfoldable pub copy_messages : List RawMessage → Res (List Message)
copy_messages List.[] = ok List.[]
copy_messages (List.◌∷◌ m ms) = elim m.body [
  | none ↦ panic
  | some body ↦ elim m.receipt_handle [
    | none ↦ panic
    | some handle ↦ elim (copy_messages ms) [
      | ok copied ↦ ok (List.◌∷◌ (record { body = body; receipt_handle = handle }) copied)
      | fail e ↦ fail e
      | panic ↦ panic
    ]
  ]
]

-- What `ReceiveMessages` makes of the client's answer: a cancelled wait is an empty answer.
unfoldable pub received : Res (List RawMessage) → Res (List Message)
unfolding copy_messages is_canceled
received (ok raw) = copy_messages raw
received (fail e) = if is_canceled e then ok List.[] else fail e
received panic = panic

-- `strings.HasSuffix`
unfoldable pub has_suffix : String → String → Bool
has_suffix s suffix =
    leb (len suffix) (len s) && str_eq (slice s (len s - len suffix) (len s)) suffix

abbrev pub non_existent_queue : String
non_existent_queue = "AWS.SimpleQueueService.NonExistentQueue: The specified queue does not exist."

-- What `GetQueueUrl` makes of the client's answer: a queue that does not exist has the url nil.
unfoldable pub found_url : Res (Option String) → Res (Option String)
found_url (ok url) = ok url
found_url (fail e) = if has_suffix (error_text e) non_existent_queue then ok none else fail e
found_url panic = panic

module _ {W : Type 0} (client : Client W) where
  unfoldable pub get_queue_url : String → Io W (Option String)
  get_queue_url queue_name w = let (r, w') = client.get_queue_url queue_name w in (found_url r, w')

  unfoldable pub list_queues : Io W (List String)
  list_queues = client.list_queues

  -- The url is read for the log.
  unfoldable pub create_queue : String → Io W (Option String)
  create_queue queue_name = do url ← client.create_queue queue_name; deref url; pure url

  unfoldable pub create_queue_if_not_exists : String → Io W (Option String)
  create_queue_if_not_exists queue_name = do
    url ← get_queue_url queue_name
    elim url [ none ↦ create_queue queue_name | some u ↦ pure (some u) ]

  -- The message's id is read for the log.
  unfoldable pub send_message : String → String → Io W (Unit {0})
  send_message queue_url message = do id ← client.send_message queue_url message; deref id; pure tt

  unfoldable pub delete_message : String → String → Io W (Unit {0})
  delete_message queue_url receipt_handle = client.delete_message queue_url receipt_handle

module _ {W : Type 0} (config : Config) (client : Client W) where
  unfoldable pub receive_messages : String → Io W (List Message)
  receive_messages queue_url w =
      let (r, w') =
        client.receive_message queue_url config.max_number_of_messages config.wait_time_seconds
          config.visibility_timeout w in
      (received r, w')

-- The options of `Init` that are not empty texts.
unfoldable pub resolvers : Config → List EndpointResolver
resolvers config =
    if str_eq config.connection_endpoint ""
    then []
    else (record { endpoint_url = config.connection_endpoint }) ∷ []

unfoldable pub load_options : Config → List LoadOption
load_options config =
    let region =
      if str_eq config.connection_region ""
      then []
      else with_region config.connection_region ∷ [] in
    if str_eq config.connection_profile ""
    then region
    else with_shared_config_profile config.connection_profile ∷ region

-- `Init`: the client that the queue keeps, and the url that it returns, which is read for the log.
unfoldable pub init :
    {W Cfg : Type 0}
    → Sdk W Cfg EndpointResolver (Client W)
    → Config
    → Io W (Client W × Option String)
init sdk config = do
  cfg ←
      on_error (wrap "failed to load AWS SDK config")
        (sdk.load_default_config (load_options config))
  let client = sdk.new_from_config cfg (resolvers config)
  url ←
      on_error (wrap ("failed to ensure SQS queue " <> config.task_queue_name <> " exists"))
        (create_queue_if_not_exists client config.task_queue_name)
  deref url
  pure (client, url)
