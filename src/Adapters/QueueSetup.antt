-- ===== src/Adapters/QueueSetup.antt =====
-- pkg/api/adapters/sqs_queue/sqs_queue.go: finding the queue or creating it, and the connection.
use Prim.Native.String.{len, slice}
use text.Mathlib.TextPositions.{len-append, slice-append_right}
use bfo.Common.{
  ◌≡◌, ℕ, ap, ◌∙◌, ◌≢◌, true, ok, fail, String, Bool-cases, inl, inr, Option, none, some, arith,
  All, GoError, error_text, ◌<>◌, str_eq, eq_iff, ◌+◌, ◌-◌,
}
use bfo.Adapters.Sdk.{Sdk, Endpoints}
use bfo.Adapters.SqsEndpoint.{EndpointResolver, resolve_endpoint}
use bfo.Adapters.SqsQueue.{
  Client, Config, has_suffix, non_existent_queue, found_url, get_queue_url, create_queue,
  create_queue_if_not_exists, resolvers, init,
}

tail_start : (a b : ℕ) → a + b - b ≡ a
tail_start a b = omega arith

slice_tail : (s t : String) → slice (s <> t) (len (s <> t) - len t) (len (s <> t)) ≡ t
slice_tail s t =
    ap (λ n. slice (s <> t) (n - len t) n) (len-append s t)
    ∙ ap (λ n. slice (s <> t) n (len s + len t)) (tail_start (len s) (len t))
    ∙ slice-append_right s t

has_suffix-append : (s t : String) → has_suffix (s <> t) t ≡ true
unfolding has_suffix
has_suffix-append s t = ground (
  arith,
  len-append s t,
  slice_tail s t,
  eq_iff (slice (s <> t) (len (s <> t) - len t) (len (s <> t))) t,
)

-- A queue that is found is not created again: if the SDK finds the url, the call answers with it
-- and does nothing else.
pub create_queue_if_not_exists_found :
    {W : Type 0} (client : Client W) (name url : String) (w w1 : W)
    → client.get_queue_url name w ≡ (ok (some url), w1)
    → create_queue_if_not_exists client name w ≡ (ok (some url), w1)
unfolding create_queue_if_not_exists get_queue_url found_url
create_queue_if_not_exists_found client name url w w1 found = ground (arith, found)

-- A queue that the SDK does not know is created: if asking for its url fails with an error whose
-- text ends in the text of `NonExistentQueue`, whatever stands before it, then
-- `CreateQueueIfNotExists` is `CreateQueue` from there on.
pub create_queue_if_not_exists_missing :
    {W : Type 0} (client : Client W) (name before : String) (e : GoError) (w w1 : W)
    → client.get_queue_url name w ≡ (fail e, w1)
    → error_text e ≡ before <> non_existent_queue
    → create_queue_if_not_exists client name w ≡ create_queue client name w1
unfolding create_queue_if_not_exists get_queue_url found_url
create_queue_if_not_exists_missing client name before e w w1 found text =
    grind (arith, found, text, has_suffix-append before non_existent_queue)

-- A second start finds the queue of the first: if an url that the SDK has found or created for a
-- name is found again right after, and `CreateQueueIfNotExists` has answered with an url, then a
-- second call gives the same url.
pub create_queue_if_not_exists_twice :
    {W : Type 0} (client : Client W) (name url : String) (w : W)
    → ((v : W) (u : String)
        → (client.get_queue_url name v).0 ≡ ok (some u)
        → (client.get_queue_url name (client.get_queue_url name v).1).0 ≡ ok (some u))
    → ((v : W) (u : String)
        → (client.create_queue name v).0 ≡ ok (some u)
        → (client.get_queue_url name (client.create_queue name v).1).0 ≡ ok (some u))
    → (create_queue_if_not_exists client name w).0 ≡ ok (some url)
    → (create_queue_if_not_exists client name (create_queue_if_not_exists client name w).1).0
      ≡ ok (some url)
unfolding create_queue_if_not_exists get_queue_url found_url create_queue
create_queue_if_not_exists_twice client name url w found created first =
    grind (arith, found, created)

-- A success of `Init` gives an url: the nil that stands for a missing queue never comes back from
-- it.
pub init_url :
    {W Cfg : Type 0} (sdk : Sdk W Cfg EndpointResolver (Client W)) (config : Config) (w : W)
    (client : Client W) (url : Option String)
    → (init sdk config w).0 ≡ ok (client, url)
    → url ≢ none
unfolding init
init_url sdk config w client url done = grind arith

-- A resolver that `Init` installs never falls back to the default one: if the configured endpoint
-- can be parsed as an url, each resolver among the options answers with the endpoint at that url,
-- whatever the parameters are, and does nothing else.
pub resolvers-resolve_endpoint :
    {W Params Url Endpoint : Type 0} (endpoints : Endpoints W Params Url Endpoint) (config : Config)
    (params : Params) (url : Url)
    → endpoints.parse_url config.connection_endpoint ≡ ok url
    → All
        (λ r. (w : W) → resolve_endpoint endpoints r params w ≡ (ok (endpoints.with_uri url), w))
        (resolvers config)
unfolding resolvers resolve_endpoint
resolvers-resolve_endpoint endpoints config params url parsed =
    elim (Bool-cases (str_eq config.connection_endpoint "")) [
      | inl empty ↦ rw empty tt
      | inr custom ↦ rw custom ((λ w. ground (arith, custom, parsed)), tt)
    ]
