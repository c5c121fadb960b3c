-- ===== src/Providers/OpenAi.antt =====
-- pkg/api/adapters/providers/openai_client.go: the client of OpenAI's files and batches.
use bfo.Common.{
  ℕ, ltb, leb, Bool, String, Option, none, some, ◌||◌, lookup, Io, Res, GoError, if◌then◌else◌,
  ◌<>◌, wrap, plain, on_error, lift, pure, raise, ◌>>=◌,
}
use bfo.Resources.Types.{
  ConfigResource, File, CreateBatchRequest, Batch, ListBatchesResponse, ListBatchesParams, Provider,
}
use bfo.Providers.Exchange.{
  Bytes, Request, Response, Net, decimal, set_header, new_request_with_context, upload_form,
  batches_path,
}

-- a missing key reads as the empty text
abbrev pub property : String → ConfigResource → String
property key config = elim (lookup key config.properties) [ none ↦ "" | some value ↦ value ]

-- `resp.StatusCode < 200 || resp.StatusCode >= 300`
unfoldable pub is_refused : ℕ → Bool
is_refused status = ltb status 200 || leb 300 status

module _ {W Writer : Type 0} (net : Net W Writer) (config : ConfigResource) where
  unfoldable pub new_request : String → String → Option Bytes → Io W Request
  new_request method path body = do
    req ←
        on_error (wrap "failed to create request")
          (lift (new_request_with_context net method (property "BASE_URL" config <> path) body))
    pure (set_header "Authorization" ("Bearer " <> property "API_KEY" config) req)

  -- the error of an answer that is refused
  abbrev pub refusal : String → Response → GoError
  refusal what resp = plain (
      what
      <> " failed with status "
      <> decimal 20 resp.status_code
      <> ": "
      <> net.text_of resp.body)

  -- `do`, with the decoder of the wanted type
  unfoldable pub send : {A : Type 0} → (Response → Res A) → Request → Io W A
  send decode req = do
    resp ← on_error (wrap "failed to execute request") (net.do_request req)
    if is_refused resp.status_code
        then raise (refusal "api request" resp)
        else on_error (wrap "failed to decode response") (lift (decode resp))

  unfoldable pub create_file : String → Bytes → String → Io W (Option File)
  create_file file_name content purpose = do
    writer ← upload_form net file_name content purpose
    req ← new_request "POST" "/files" (some (net.written writer))
    file ← send net.decode_file (set_header "Content-Type" (net.form_data_content_type writer) req)
    pure (some file)

  -- The content comes back as it was sent, and is not decoded.
  unfoldable pub get_file_content : String → Io W Bytes
  get_file_content file_id = do
    req ←
        on_error (wrap "failed to create request for getting file content")
          (new_request "GET" ("/files/" <> file_id <> "/content") none)
    resp ← on_error (wrap "failed to execute request for getting file content") (net.do_request req)
    if is_refused resp.status_code
        then raise (refusal "api request for file content" resp)
        else elim resp.read_error [
          | none ↦ pure resp.body
          | some e ↦ raise (wrap "failed to read file content from response" e)
        ]

  unfoldable pub create_batch : CreateBatchRequest → Io W (Option Batch)
  create_batch batch_req = do
    json_body ←
        on_error (wrap "failed to marshal create batch request")
          (lift (net.marshal_batch_request batch_req))
    req ← new_request "POST" "/batches" (some json_body)
    batch ← send net.decode_batch (set_header "Content-Type" "application/json" req)
    pure (some batch)

  unfoldable pub retrieve_batch : String → Io W (Option Batch)
  retrieve_batch batch_id = do
    req ← new_request "GET" ("/batches/" <> batch_id) none
    batch ← send net.decode_batch req
    pure (some batch)

  unfoldable pub cancel_batch : String → Io W (Option Batch)
  cancel_batch batch_id = do
    req ← new_request "POST" ("/batches/" <> batch_id <> "/cancel") none
    batch ← send net.decode_batch req
    pure (some batch)

  unfoldable pub list_batches : Option ListBatchesParams → Io W (Option ListBatchesResponse)
  list_batches params = do
    path ← batches_path net params
    req ← new_request "GET" path none
    response ← send net.decode_list req
    pure (some response)

  -- the client as a `Provider`
  unfoldable pub open_ai_client : Provider W
  open_ai_client = record {
    create_file = create_file;
    create_batch = create_batch;
    retrieve_batch = retrieve_batch;
    cancel_batch = cancel_batch;
    list_batches = list_batches;
    get_file_content = get_file_content;
  }
