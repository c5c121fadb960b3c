-- ===== src/Providers/Exchange.antt =====
-- pkg/api/adapters/providers: what both clients ask of net/http, mime/multipart, encoding/json and
-- go-querystring, and the form of an upload, which they share.
use bfo.Common.{
  ℕ, zero, suc, ◌+◌, ◌/◌, ◌%◌, ltb, String, Option, none, some, List, Map, Io, Res, ok, fail,
  GoError, if◌then◌else◌, str_eq, ◌<>◌, wrap, on_error, lift, always, pure, ◌>>=◌, insert,
}
use Prim.Native.String.{slice}
use bfo.Resources.Types.{File, CreateBatchRequest, Batch, ListBatchesResponse, ListBatchesParams}

abbrev pub Bytes : Type 0
Bytes = List ℕ

-- `http.Request`, with `none` for a nil body
pub record Request : Type 0 where
  pub method : String
  pub url : String
  pub header : Map String
  pub body : Option Bytes

-- `http.Response`; reading its body gives the bytes and, perhaps, an error.
pub record Response : Type 0 where
  pub status_code : ℕ
  pub body : Bytes
  pub read_error : Option GoError

-- `Writer` is the state of a `multipart.Writer` and its buffer.
pub record Net (W Writer : Type 0) : Type 0 where
  -- why `http.NewRequestWithContext` refuses a method and an url
  pub request_error : String → String → Option GoError
  -- `http.Client.Do`
  pub do_request : Request → Io W Response
  -- `string(bytes)`
  pub text_of : Bytes → String
  -- a new writer, with a random boundary
  pub new_writer : W → Writer × W
  pub write_field : String → String → Writer → Res Writer
  pub create_form_file : String → String → Writer → Res Writer
  pub copy : Bytes → Writer → Res Writer
  pub close : Writer → Res Writer
  pub written : Writer → Bytes
  pub form_data_content_type : Writer → String
  pub marshal_batch_request : CreateBatchRequest → Res Bytes
  pub decode_file : Response → Res File
  pub decode_batch : Response → Res Batch
  pub decode_list : Response → Res ListBatchesResponse
  -- `query.Values` and its `Encode`
  pub query_values : ListBatchesParams → Res String

-- `%d` of a number with at most this many digits
unfoldable pub decimal : ℕ → ℕ → String
decimal zero n = ""
decimal (suc digits) n =
    let rest = decimal digits (n / 10) in
    let last = slice "0123456789" (n % 10) (n % 10 + 1) in if ltb n 10 then last else rest <> last

-- `req.Header.Set`
abbrev pub set_header : String → String → Request → Request
set_header name value r = record r { header = insert name value r.header }

module _ {W Writer : Type 0} (net : Net W Writer) where
  -- `http.NewRequestWithContext`
  abbrev pub new_request_with_context : String → String → Option Bytes → Res Request
  new_request_with_context method url body = elim (net.request_error method url) [
    | some e ↦ fail e
    | none ↦ ok (record { method = method; url = url; header = List.[]; body = body })
  ]

  -- The form with the purpose and the file, as `CreateFile` of either client writes it.
  unfoldable pub upload_form : String → Bytes → String → Io W Writer
  upload_form file_name content purpose = do
    writer ← always net.new_writer
    writer ←
        on_error (wrap "failed to write purpose to multipart form")
          (lift (net.write_field "purpose" purpose writer))
    writer ←
        on_error (wrap "failed to create form file")
          (lift (net.create_form_file "file" file_name writer))
    writer ← on_error (wrap "failed to copy file content") (lift (net.copy content writer))
    on_error (wrap "failed to close multipart writer") (lift (net.close writer))

  -- the path of `ListBatches` of either client
  unfoldable pub batches_path : Option ListBatchesParams → Io W String
  batches_path none = pure "/batches"
  batches_path (some params) = do
    q ← on_error (wrap "failed to encode query params") (lift (net.query_values params))
    pure (if str_eq q "" then "/batches" else "/batches" <> "?" <> q)
