-- ===== src/Providers/Requests.antt =====
-- pkg/api/adapters/providers/openai_client.go: what the client sends.
use bfo.Common.{
  Map, Res, ◌∙◌, lookup-insert, lookup-insert_other, eq_iff, ◌≡◌, String, Option, some, none, arith,
  lookup, ◌<>◌, ok,
}
use bfo.Tasks.Delivery.{Keeps}
use bfo.Resources.Types.{ConfigResource, CreateBatchRequest, ListBatchesParams, Provider}
use bfo.Providers.Exchange.{Bytes, Request, Response, Net, set_header, upload_form, batches_path}
use bfo.Providers.OpenAi as OpenAi
use bfo.Providers.OpenAi.{property, new_request, send, open_ai_client}

-- A request with the key of the configuration, to an url under its base.
pub record IsAuthorised (config : ConfigResource) (r : Request) : Type 0 where
  pub authorization :
      lookup "Authorization" r.header ≡ some ("Bearer " <> property "API_KEY" config)
  pub under_base : (path : String) × (r.url ≡ property "BASE_URL" config <> path)

-- Each call of the provider keeps `P`.
pub record KeepsCalls {W : Type 0} (P : W → Type 0) (provider : Provider W) : Type 0 where
  pub create_file :
      (name : String) (content : Bytes) (purpose : String)
      → Keeps P (provider.create_file name content purpose)
  pub create_batch : (r : CreateBatchRequest) → Keeps P (provider.create_batch r)
  pub retrieve_batch : (id : String) → Keeps P (provider.retrieve_batch id)
  pub cancel_batch : (id : String) → Keeps P (provider.cancel_batch id)
  pub list_batches : (params : Option ListBatchesParams) → Keeps P (provider.list_batches params)
  pub get_file_content : (id : String) → Keeps P (provider.get_file_content id)

module _ {W Writer : Type 0} (P : W → Type 0) (net : Net W Writer) (config : ConfigResource)
    (writing : (w : W) → P w → P (net.new_writer w).1)
    (sending : (r : Request) → IsAuthorised config r → Keeps P (net.do_request r)) where
  new_request-pure :
      (method path : String) (body : Option Bytes) (w : W)
      → (new_request net config method path body w).1 ≡ w
  unfolding new_request
  new_request-pure method path body w = ground arith

  new_request-IsAuthorised :
      (method path : String) (body : Option Bytes) (w : W) (r : Request)
      → (new_request net config method path body w).0 ≡ ok r
      → IsAuthorised config r
  unfolding new_request lookup
  new_request-IsAuthorised method path body w r made = record {
    authorization = grind (
      arith,
      λ (m : Map String). lookup-insert "Authorization" ("Bearer " <> property "API_KEY" config) m,
    );
    under_base = (path, grind arith);
  }

  set_header-IsAuthorised :
      (value : String) (r : Request)
      → IsAuthorised config r
      → IsAuthorised config (set_header "Content-Type" value r)
  unfolding lookup
  set_header-IsAuthorised value r h = record {
    authorization =
        lookup-insert_other "Authorization" "Content-Type" value r.header
          (ground (arith, eq_iff "Authorization" "Content-Type"))
        ∙ h.authorization;
    under_base = h.under_base;
  }

  send-Keeps :
      {A : Type 0} (decode : Response → Res A) (r : Request)
      → IsAuthorised config r
      → Keeps P (send net config decode r)
  unfolding send
  send-Keeps decode r h w p = grind (arith, sending r h w p)

  upload_form-Keeps :
      (name : String) (content : Bytes) (purpose : String)
      → Keeps P (upload_form net name content purpose)
  unfolding upload_form
  upload_form-Keeps name content purpose w p = grind (arith, writing w p)

  batches_path-Keeps : (params : Option ListBatchesParams) → Keeps P (batches_path net params)
  unfolding batches_path
  batches_path-Keeps none w p = p
  batches_path-Keeps (some params) w p = grind arith

  -- Whatever the client is asked for, it sends only requests that carry the configured key as a
  -- bearer token and go to an url under the configured base: each of its six calls keeps any
  -- property of the outside world that new form writers and the sending of such requests keep.
  pub open_ai_client-KeepsCalls : KeepsCalls P (open_ai_client net config)
  unfolding open_ai_client OpenAi.create_file OpenAi.create_batch OpenAi.retrieve_batch
      OpenAi.cancel_batch OpenAi.list_batches OpenAi.get_file_content
  open_ai_client-KeepsCalls = record {
    create_file = λ name content purpose w p. grind (
      arith,
      upload_form-Keeps name content purpose w p,
      new_request-pure,
      new_request-IsAuthorised,
      set_header-IsAuthorised,
      send-Keeps,
    );
    create_batch = λ r w p.
        grind
          (arith, new_request-pure, new_request-IsAuthorised, set_header-IsAuthorised, send-Keeps);
    retrieve_batch =
        λ id w p. grind (arith, new_request-pure, new_request-IsAuthorised, send-Keeps);
    cancel_batch = λ id w p. grind (arith, new_request-pure, new_request-IsAuthorised, send-Keeps);
    list_batches = λ params w p. grind (
      arith,
      batches_path-Keeps params w p,
      new_request-pure,
      new_request-IsAuthorised,
      send-Keeps,
    );
    get_file_content = λ id w p. grind (arith, new_request-pure, new_request-IsAuthorised, sending);
  }
