-- ===== src/Providers/Echo.antt =====
-- pkg/api/adapters/providers/echo_client.go: the client that sends nothing and answers with zero
-- values.
use bfo.Common.{
  String, false, Option, none, some, [], Io, ◌<>◌, wrap, plain, on_error, lift, pure, raise, ◌>>=◌,
}
use bfo.Resources.Types.{
  File, CreateBatchRequest, Batch, ListBatchesResponse, ListBatchesParams, Provider,
}
use bfo.Providers.Exchange.{
  Bytes, Request, Net, set_header, new_request_with_context, upload_form, batches_path,
}

abbrev pub zero_file : File
zero_file = record {
  id = "";
  object = "";
  filename = "";
  purpose = "";
  status = "";
  status_details = "";
  bytes = 0;
  created_at = 0;
}

abbrev pub zero_batch : Batch
zero_batch = record {
  errors = none;
  output_file_id = none;
  error_file_id = none;
  in_progress_at = none;
  expires_at = none;
  finalizing_at = none;
  completed_at = none;
  failed_at = none;
  cancelled_at = none;
  metadata = [];
  id = "";
  object = "";
  endpoint = "";
  input_file_id = "";
  completion_window = "";
  status = "";
  request_counts = record { total = 0; completed = 0; failed = 0 };
  created_at = 0;
}

abbrev pub zero_list : ListBatchesResponse
zero_list = record { first_id = none; last_id = none; object = ""; entries = []; has_more = false }

module _ {W Writer : Type 0} (net : Net W Writer) where
  unfoldable pub new_request : String → String → Option Bytes → Io W Request
  new_request method path body =
      on_error (wrap "failed to create request")
        (lift (new_request_with_context net method ("//" <> path) body))

  -- `do`: the request is logged, and the value that is to be filled stays as it was
  unfoldable pub send : {A : Type 0} → A → Request → Io W A
  send value req = pure value

  unfoldable pub create_file : String → Bytes → String → Io W (Option File)
  create_file file_name content purpose = do
    writer ← upload_form net file_name content purpose
    req ← new_request "POST" "/files" (some (net.written writer))
    file ← send zero_file (set_header "Content-Type" (net.form_data_content_type writer) req)
    pure (some file)

  unfoldable pub get_file_content : String → Io W Bytes
  get_file_content file_id = raise (plain "GetFileContent is not implemented for EchoClient")

  unfoldable pub create_batch : CreateBatchRequest → Io W (Option Batch)
  create_batch batch_req = do
    json_body ←
        on_error (wrap "failed to marshal create batch request")
          (lift (net.marshal_batch_request batch_req))
    req ← new_request "POST" "/batches" (some json_body)
    batch ← send zero_batch (set_header "Content-Type" "application/json" req)
    pure (some batch)

  unfoldable pub retrieve_batch : String → Io W (Option Batch)
  retrieve_batch batch_id = do
    req ← new_request "GET" ("/batches/" <> batch_id) none
    batch ← send zero_batch req
    pure (some batch)

  unfoldable pub cancel_batch : String → Io W (Option Batch)
  cancel_batch batch_id = do
    req ← new_request "POST" ("/batches/" <> batch_id <> "/cancel") none
    batch ← send zero_batch req
    pure (some batch)

  unfoldable pub list_batches : Option ListBatchesParams → Io W (Option ListBatchesResponse)
  list_batches params = do
    path ← batches_path net params
    req ← new_request "GET" path none
    response ← send zero_list req
    pure (some response)

  -- the client as a `Provider`
  unfoldable pub echo_client : Provider W
  echo_client = record {
    create_file = create_file;
    create_batch = create_batch;
    retrieve_batch = retrieve_batch;
    cancel_batch = cancel_batch;
    list_batches = list_batches;
    get_file_content = get_file_content;
  }
