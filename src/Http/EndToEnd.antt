-- ===== src/Http/EndToEnd.antt =====
-- pkg/api/adapters/http/routes_tasks.go over the tasks service, the repository and the queue: from
-- the request to the worker.
use mathlib.Core.List.{Memᴰ}
use bfo.Common.{◌≡◌, ◌≢◌, refl, ok, some, String, List, Runtime, All}
use bfo.Tasks.Types.{Task, TaskWithReceipt, Config}
use bfo.Tasks.Service.{Service}
use bfo.Adapters.SqsQueue.{RawMessage}
use bfo.Adapters.Repository.{Repository, for_tasks, enqueue_task, pick_task_from_queue}
use bfo.Adapters.RoundTrip.{IsReadable, Picks, pick-Picks, enqueue_task-sent, enqueue_task-end}
use bfo.Http.{ok_result, Request, Decoder, put_task}
use bfo.Http.Handlers.{put_task-sends}

-- The task is for the bucket of the path and, where the path has an id, has that id.
pub record IsFor {Body : Type 0} (request : Request Body) (task : Task) : Type 0 where
  pub of_bucket : task.bucket_id ≡ request.bucket
  pub of_id : request.id ≢ "" → task.id ≡ request.id

-- A reception at `u` gives, among others, a task for the path, with the receipt of its message.
pub record IsPicked {W Item Body : Type 0} (r : Repository W Item) (url : String)
    (request : Request Body) (u : W) : Type 0 where
  pub task : Task
  pub handle : String
  pub records : List TaskWithReceipt
  pub picked : (pick_task_from_queue r url u).0 ≡ ok records
  pub among : Memᴰ (record { task = some task; receipt_handle = handle }) records
  pub for_path : IsFor request task

module _ {W Item Body : Type 0} (r : Repository W Item) (url : String) (request : Request Body)
    (text : Task → String) (read : Task → Task) (InQueue : String → W → Type 0)
    (marshals : (t : Task) → r.json.marshal t ≡ ok (text t))
    (unmarshals : (t : Task) → IsFor request t → r.json.unmarshal (text t) ≡ ok (some (read t)))
    (reads : (t : Task) → IsFor request t → IsFor request (read t))
    (sends : (body id : String) (v : W)
      → (r.queue.send_message url body v).0 ≡ ok (some id)
      → InQueue body (r.queue.send_message url body v).1) where
  -- The text of a task for the path is in the queue.
  abbrev pub IsQueued : W → Type 0
  IsQueued v = (t : Task) × IsFor request t × InQueue (text t) v

  enqueue_task-IsQueued :
      (t : Task) (v : W)
      → t.bucket_id ≡ request.bucket
      → (request.id ≢ "" → t.id ≡ request.id)
      → (enqueue_task r url t v).0 ≡ ok tt
      → IsQueued (enqueue_task r url t v).1
  enqueue_task-IsQueued t v bucket id done =
      let (message_id, sent) = enqueue_task-sent r url (text t) t v (marshals t) done in
      (
        t,
        record { of_bucket = bucket; of_id = id },
        enqueue_task-end (InQueue (text t)) r url (text t) t v (marshals t)
            (sends (text t) message_id v sent),
      )

  -- A request to PUT a task that is answered OK leaves the text of such a task in the queue.
  pub put_task-IsQueued :
      (decoder : Decoder Body) (config : Config) (rt : Runtime W) (w : W)
      → let s : Service W = record {
        config = config;
        context = some url;
        repository = for_tasks r;
      } in
        (put_task decoder s rt request w).0 ≡ ok ok_result
        → IsQueued (put_task decoder s rt request w).1
  unfolding for_tasks
  put_task-IsQueued decoder config rt w answered =
      put_task-sends IsQueued decoder
        (record { config = config; context = some url; repository = for_tasks r }) rt url request w
        refl enqueue_task-IsQueued answered

  -- What the HTTP interface takes, the worker gets: let a request to PUT a task be answered OK, on
  -- the service over the repository, and let the SDK receive messages at some world `u`, all of
  -- them readable, that hold each body in the queue after the request under some receipt. Then
  -- `PickTaskFromQueue` at `u` gives, among its records, a task with the bucket of the path and,
  -- where the path has an id, with that id, and with the receipt of its message. Tasks are written
  -- without errors, a task for the path reads back as one for the path, and the body of a message
  -- that the SDK has sent is in the queue.
  pub put_task-IsPicked :
      (decoder : Decoder Body) (config : Config) (rt : Runtime W) (w u : W) (raw : List RawMessage)
      → let s : Service W = record {
        config = config;
        context = some url;
        repository = for_tasks r;
      } in
        (put_task decoder s rt request w).0 ≡ ok ok_result
        → (r.queue.receive_message url r.queue_config.max_number_of_messages
            r.queue_config.wait_time_seconds r.queue_config.visibility_timeout u).0
          ≡ ok raw
        → All (IsReadable r.json) raw
        → ((body : String)
            → InQueue body (put_task decoder s rt request w).1
            → (handle : String) × Memᴰ
                (record { body = some body; receipt_handle = some handle })
                raw)
        → IsPicked r url request u
  put_task-IsPicked decoder config rt w u raw answered received readable holds =
      let (t, for_path, queued) = put_task-IsQueued decoder config rt w answered in
      let (handle, there) = holds (text t) queued in
      let picks : Picks r url u (read t) handle =
        pick-Picks r url (text t) handle (read t) u raw received readable there
          (unmarshals t for_path) in
      record {
        task = read t;
        handle = handle;
        records = picks.records;
        picked = picks.picked;
        among = picks.among;
        for_path = reads t for_path;
      }
