-- ===== src/Http/Handlers.antt =====
-- pkg/api/adapters/http: what an answer of the handlers says of the call behind it.
use bfo.Common.{Res, ◌≡◌, ◌≢◌, ◌⊎◌, arith, ok, String, some, Runtime, eq_iff, Io}
use bfo.Tasks.Types.{Task, TaskBucket}
use bfo.Tasks.Service.{Service, update_task_bucket, fill_task, dispatch_task}
use bfo.Tasks.Dispatch.{submit_task-sends}
use bfo.Http.{
  Result, ok_result, error_result, Request, Decoder, put_schema, put_task, answering, after_decode,
}

fill_task-names :
    {W : Type 0} (rt : Runtime W) (s : Service W) (task t : Task) (w : W)
    → (fill_task rt s task w).0 ≡ ok t
    → (t.bucket_id ≡ task.bucket_id) × (task.id ≢ "" → t.id ≡ task.id)
unfolding fill_task
fill_task-names rt s task t w done = ground (arith, eq_iff task.id "")

dispatch_task-sends :
    {W : Type 0} (Q : W → Type 0) (rt : Runtime W) (s : Service W) (url : String) (task t : Task)
    (w : W)
    → s.context ≡ some url
    → ((t : Task) (v : W)
        → t.bucket_id ≡ task.bucket_id
        → (task.id ≢ "" → t.id ≡ task.id)
        → (s.repository.enqueue_task url t v).0 ≡ ok tt
        → Q (s.repository.enqueue_task url t v).1)
    → (dispatch_task rt s task w).0 ≡ ok t
    → Q (dispatch_task rt s task w).1
unfolding dispatch_task
dispatch_task-sends {W} Q rt s url task t w init sends done = grind (
  arith,
  λ (t : Task) (done : (fill_task rt s task w).0 ≡ ok t) (v : W).
      submit_task-sends Q rt s url t v (λ u.
        sends t u (fill_task-names rt s task t w done).0 (fill_task-names rt s task t w done).1),
)

after_decode-answering :
    {W A B : Type 0} (Q : W → Type 0) (r : Res A) (m : A → Io W B) (w : W)
    → ((a : A) (b : B) → (m a w).0 ≡ ok b → Q (m a w).1)
    → (after_decode r (λ a. answering (m a)) w).0 ≡ ok ok_result
    → Q (after_decode r (λ a. answering (m a)) w).1
after_decode-answering Q r m w holds done = grind (arith, holds)

-- An OK answer to PUT of a task means that a message was sent for the bucket of the path and,
-- where the path has an id, for that id, whatever the body says: if a successful sending of such
-- a task brings about `Q`, then `Q` holds after a request that is answered OK, on an initialised
-- service.
pub put_task-sends :
    {W Body : Type 0} (Q : W → Type 0) (decoder : Decoder Body) (s : Service W) (rt : Runtime W)
    (url : String) (request : Request Body) (w : W)
    → s.context ≡ some url
    → ((t : Task) (v : W)
        → t.bucket_id ≡ request.bucket
        → (request.id ≢ "" → t.id ≡ request.id)
        → (s.repository.enqueue_task url t v).0 ≡ ok tt
        → Q (s.repository.enqueue_task url t v).1)
    → (put_task decoder s rt request w).0 ≡ ok ok_result
    → Q (put_task decoder s rt request w).1
unfolding put_task
put_task-sends Q decoder s rt url request w init sends done =
    after_decode-answering Q (decoder.decode_task request.body)
      (λ task. dispatch_task rt s (record task { id = request.id; bucket_id = request.bucket })) w
      (λ task t.
        dispatch_task-sends Q rt s url (record task { id = request.id; bucket_id = request.bucket })
          t w init sends)
      done

-- An OK answer to PUT of a schema means that a bucket with the id of the path was stored.
pub put_schema-stores :
    {W Body : Type 0} (Q : W → Type 0) (decoder : Decoder Body) (s : Service W)
    (request : Request Body) (w : W)
    → ((b : TaskBucket) (v : W)
        → b.id ≡ request.bucket
        → (s.repository.upsert_task_bucket b v).0 ≡ ok tt
        → Q (s.repository.upsert_task_bucket b v).1)
    → (put_schema decoder s request w).0 ≡ ok ok_result
    → Q (put_schema decoder s request w).1
unfolding put_schema update_task_bucket
put_schema-stores Q decoder s request w stores done = grind (arith, stores)

-- Each answer is OK or the status 500, also for a body that cannot be read.
pub statuses :
    {W Body : Type 0} (decoder : Decoder Body) (s : Service W) (rt : Runtime W)
    (request : Request Body) (w : W) (status : Result)
    → ((put_task decoder s rt request w).0 ≡ ok status)
      ⊎ ((put_schema decoder s request w).0 ≡ ok status)
    → (status ≡ ok_result) ⊎ ((text : String) × (status ≡ error_result 500 text))
unfolding put_task put_schema
statuses decoder s rt request w status done = ground arith
