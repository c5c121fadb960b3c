-- ===== src/Adapters/RoundTrip.antt =====
-- pkg/api/adapters/repository: what was put in the store or in the queue comes back.
use mathlib.Core.List.{Memᴰ}
use bfo.Common.{Option, List, All, refl, ap, ◌≡◌, ok, some, String, [], ◌∷◌, arith}
use bfo.Tasks.Types.{Task, TaskWithReceipt, TaskStatus}
use bfo.Adapters.DynamoDbStore.{get_item, upsert_item}
use bfo.Adapters.SqsQueue.{
  Message, RawMessage, send_message, receive_messages, received, copy_messages,
}
use bfo.Adapters.Repository.{
  TaskJson, Repository, decode_messages, enqueue_task, pick_task_from_queue, put_task_status,
  get_task_status,
}

-- A task that was queued was sent as a message, with its text as the body.
pub enqueue_task-sent :
    {W Item : Type 0} (r : Repository W Item) (url body : String) (task : Task) (w : W)
    → r.json.marshal task ≡ ok body
    → (enqueue_task r url task w).0 ≡ ok tt
    → (id : String) × ((r.queue.send_message url body w).0 ≡ ok (some id))
unfolding enqueue_task send_message
enqueue_task-sent r url body task w marshals done = grind (arith, marshals)

-- What sending its text brings about holds after a task was queued.
pub enqueue_task-end :
    {W Item : Type 0} (Q : W → Type 0) (r : Repository W Item) (url body : String) (task : Task)
    (w : W)
    → r.json.marshal task ≡ ok body
    → Q (r.queue.send_message url body w).1
    → Q (enqueue_task r url task w).1
unfolding enqueue_task send_message
enqueue_task-end Q r url body task w marshals q = grind (arith, marshals)

-- The message has a body, which reads as a task or as nil, and a receipt.
pub record IsReadable (json : TaskJson) (m : RawMessage) : Type 0 where
  pub body : String
  pub handle : String
  pub task : Option Task
  pub has_body : m.body ≡ some body
  pub has_handle : m.receipt_handle ≡ some handle
  pub reads : json.unmarshal body ≡ ok task

abbrev made : Option Task → String → TaskWithReceipt
made task handle = record { task = task; receipt_handle = handle }

abbrev sent_as : String → String → RawMessage
sent_as body handle = record { body = some body; receipt_handle = some handle }

-- The messages, and the records that are made of them: each message among them gives a record.
record Reads (json : TaskJson) (raw : List RawMessage) : Type 0 where
  messages : List Message
  records : List TaskWithReceipt
  copied : copy_messages raw ≡ ok messages
  decoded : decode_messages json messages ≡ ok records
  gives :
      (body handle : String) (got : Option Task)
      → json.unmarshal body ≡ ok got
      → Memᴰ (sent_as body handle) raw
      → Memᴰ (made got handle) records

same_record : {t t' : Option Task} {h h' : String} → t ≡ t' → h ≡ h' → made t h ≡ made t' h'
same_record a b = cc

-- The record of the first message, or one of the others.
head-gives :
    (json : TaskJson) (m : RawMessage) (raw : List RawMessage) (h : IsReadable json m)
    (rest : Reads json raw) (body handle : String) (got : Option Task)
    → json.unmarshal body ≡ ok got
    → Memᴰ (sent_as body handle) (m ∷ raw)
    → Memᴰ (made got handle) (made h.task h.handle ∷ rest.records)
head-gives json m raw h rest body handle got reads (Memᴰ.head same) = Memᴰ.head (
    same_record (ground (arith, ap (λ x. x.body) same, h.has_body, h.reads, reads))
      (ground (arith, ap (λ x. x.receipt_handle) same, h.has_handle)))
head-gives json m raw h rest body handle got reads (Memᴰ.tail there) =
    Memᴰ.tail (rest.gives body handle got reads there)

readable-Reads :
    (json : TaskJson) (raw : List RawMessage) → All (IsReadable json) raw → Reads json raw
unfolding copy_messages decode_messages
readable-Reads json [] h = record {
  messages = [];
  records = [];
  copied = refl;
  decoded = refl;
  gives = λ body handle got reads there. elim there [ ];
}
readable-Reads json (m ∷ raw) (h, others) =
    let rest = readable-Reads json raw others in
    record {
      messages = (record { body = h.body; receipt_handle = h.handle }) ∷ rest.messages;
      records = made h.task h.handle ∷ rest.records;
      copied = ground (arith, h.has_body, h.has_handle, rest.copied);
      decoded = ground (arith, h.reads, rest.decoded);
      gives = head-gives json m raw h rest;
    }

-- What `PickTaskFromQueue` gives holds this task with this receipt.
pub record Picks {W Item : Type 0} (r : Repository W Item) (url : String) (u : W) (task : Task)
    (handle : String) : Type 0 where
  pub records : List TaskWithReceipt
  pub picked : (pick_task_from_queue r url u).0 ≡ ok records
  pub among : Memᴰ (record { task = some task; receipt_handle = handle }) records

pub pick-Picks :
    {W Item : Type 0} (r : Repository W Item) (url body handle : String) (task : Task) (u : W)
    (raw : List RawMessage)
    → (r.queue.receive_message url r.queue_config.max_number_of_messages
        r.queue_config.wait_time_seconds r.queue_config.visibility_timeout u).0
      ≡ ok raw
    → All (IsReadable r.json) raw
    → Memᴰ (record { body = some body; receipt_handle = some handle }) raw
    → r.json.unmarshal body ≡ ok (some task)
    → Picks r url u task handle
unfolding pick_task_from_queue receive_messages received
pick-Picks r url body handle task u raw there readable message reads =
    let all = readable-Reads r.json raw readable in
    record {
      records = all.records;
      picked = ground (arith, there, all.copied, all.decoded);
      among = all.gives body handle (some task) reads message;
    }

pub pick-single :
    {W Item : Type 0} (r : Repository W Item) (url body handle : String) (task : Task) (u : W)
    → (r.queue.receive_message url r.queue_config.max_number_of_messages
        r.queue_config.wait_time_seconds r.queue_config.visibility_timeout u).0
      ≡ ok ((record { body = some body; receipt_handle = some handle }) ∷ [])
    → r.json.unmarshal body ≡ ok (some task)
    → (pick_task_from_queue r url u).0
      ≡ ok ((record { task = some task; receipt_handle = handle }) ∷ [])
unfolding pick_task_from_queue receive_messages received copy_messages decode_messages
pick-single r url body handle task u there reads = ground (arith, there, reads)

enqueue_task-reads :
    {W Item : Type 0} (r : Repository W Item) (url body id handle : String) (task got : Task)
    (w : W)
    → r.json.marshal task ≡ ok body
    → r.json.unmarshal body ≡ ok (some got)
    → (r.queue.send_message url body w).0 ≡ ok (some id)
    → (r.queue.receive_message url r.queue_config.max_number_of_messages
        r.queue_config.wait_time_seconds r.queue_config.visibility_timeout
        (r.queue.send_message url body w).1).0
      ≡ ok ((record { body = some body; receipt_handle = some handle }) ∷ [])
    → ((enqueue_task r url task w).0 ≡ ok tt)
      × ((pick_task_from_queue r url (enqueue_task r url task w).1).0
          ≡ ok ((record { task = some got; receipt_handle = handle }) ∷ []))
unfolding enqueue_task send_message pick_task_from_queue receive_messages received copy_messages
    decode_messages
enqueue_task-reads r url body id handle task got w marshals unmarshals sent there =
    grind (arith, marshals, unmarshals, sent, there)

-- A task that is queued comes back: if it is written as `body`, which reads as the task, the SDK
-- takes the message, and what it receives then is that one message, then `EnqueueTask` succeeds,
-- and `PickTaskFromQueue` after it gives the task with the receipt of the message.
pub enqueue_task-pick :
    {W Item : Type 0} (r : Repository W Item) (url body id handle : String) (task : Task) (w : W)
    → r.json.marshal task ≡ ok body
    → r.json.unmarshal body ≡ ok (some task)
    → (r.queue.send_message url body w).0 ≡ ok (some id)
    → (r.queue.receive_message url r.queue_config.max_number_of_messages
        r.queue_config.wait_time_seconds r.queue_config.visibility_timeout
        (r.queue.send_message url body w).1).0
      ≡ ok ((record { body = some body; receipt_handle = some handle }) ∷ [])
    → ((enqueue_task r url task w).0 ≡ ok tt)
      × ((pick_task_from_queue r url (enqueue_task r url task w).1).0
          ≡ ok ((record { task = some task; receipt_handle = handle }) ∷ []))
enqueue_task-pick r url body id handle task w marshals unmarshals sent there =
    enqueue_task-reads r url body id handle task task w marshals unmarshals sent there

-- A status that was put comes back under its task id, if the store gives the item that was put.
pub put_task_status-get :
    {W Item : Type 0} (r : Repository W Item) (status : TaskStatus) (item : Item) (w : W)
    → r.statuses.marshal_map status ≡ ok item
    → r.statuses.unmarshal_map item ≡ ok status
    → ((r.store.put_item "task_statuses" item w).0 ≡ ok tt)
    → (r.store.get_item "task_statuses" "TaskId" status.task_id
        (r.store.put_item "task_statuses" item w).1).0
      ≡ ok (some item)
    → (get_task_status r status.task_id (put_task_status r status w).1).0 ≡ ok (some status)
unfolding get_task_status put_task_status get_item upsert_item
put_task_status-get r status item w marshals unmarshals put there =
    grind (arith, marshals, unmarshals, put, there)
