-- ===== src/Http.antt =====
-- pkg/api/adapters/http: the two handlers. The JSON decoder is a parameter.
pub mod Handlers
pub mod EndToEnd
pub mod ToBatch
pub mod Server
pub mod Routing
use bfo.Common.{
  ℕ, String, Option, none, some, Io, Res, ok, fail, panic, GoError, error_text, pure, crash,
  catch_error, ◌>>=◌, ◌>>◌, Runtime,
}
use bfo.Tasks.Types.{Task, TaskBucket}
use bfo.Tasks.Service.{Service, update_task_bucket, dispatch_task}

-- `ctx.Results.Ok` and `ctx.Results.Error`, with the body of the error
pub data Result : Type 0 where
  ok_result : Result
  error_result : ℕ → String → Result

-- What the handlers read of a request: its path values and its body.
pub record Request (Body : Type 0) : Type 0 where
  pub bucket : String
  pub id : String
  pub body : Body

-- The decoder at the two types; the text `null` leaves the zero value.
pub record Decoder (Body : Type 0) : Type 0 where
  pub decode_task : Body → Res Task
  pub decode_task_bucket : Body → Res TaskBucket

abbrev pub internal_error : GoError → Result
internal_error e = error_result 500 (error_text e)

abbrev pub answer : Option GoError → Result
answer none = ok_result
answer (some e) = internal_error e

-- The body is decoded first; an error of the decoder is the answer.
abbrev pub after_decode : {W A : Type 0} → Res A → (A → Io W Result) → Io W Result
after_decode (ok a) handle = handle a
after_decode (fail e) handle = pure (internal_error e)
after_decode panic handle = crash

-- `if err != nil` around the service's call, and the answer of the handler
abbrev pub answering : {W A : Type 0} → Io W A → Io W Result
answering m = catch_error m >>= λ e. pure (answer e)

module _ {W Body : Type 0} (decoder : Decoder Body) (tasks : Service W) where
  -- PUT /api/{bucket}/schema
  unfoldable pub put_schema : Request Body → Io W Result
  put_schema request = after_decode (decoder.decode_task_bucket request.body) (λ task_bucket.
      answering (update_task_bucket tasks (some (record task_bucket { id = request.bucket }))))

  -- PUT /api/{bucket}/tasks/{id...}
  unfoldable pub put_task : Runtime W → Request Body → Io W Result
  put_task rt request = after_decode (decoder.decode_task request.body) (λ task.
      answering
        (dispatch_task rt tasks (record task { id = request.id; bucket_id = request.bucket })))
