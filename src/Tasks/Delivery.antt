-- ===== src/Tasks/Delivery.antt =====
-- pkg/api/business/tasks/service.go, `PickUpNextAvailableTask`: what becomes of a message.
use bfo.Common.{
  String, none, some, List, [], ◌∷◌, ◌≡◌, refl, ◌≢◌, ◌⊎◌, inl, inr, arith, Bool-cases, All, str_eq,
  eq_iff, Io, ◌>>=◌, ok, panic, Runtime,
}
use bfo.Tasks.Types.{Task, TaskWithReceipt, Updates}
use bfo.Tasks.Service.{
  message_temporarily_failed, system_temporarily_failed, Service, Reply, ProcessFn,
}
use bfo.Tasks.Worker.{
  conclude, update_final_status, finish_record, handle_record, handle_records,
  pick_up_next_available_task,
}

-- The reply asks for the message to be tried again.
abbrev pub AsksRetry : Reply → Type 0
AsksRetry reply =
    (reply.error ≢ none)
    ⊎ ((reply.result ≡ system_temporarily_failed) ⊎ (reply.result ≡ message_temporarily_failed))

-- The effect leads from worlds with the property to worlds with the property, however it ends.
abbrev pub Keeps : {W A : Type 0} → (W → Type 0) → Io W A → Type 0
Keeps {W} P m = (w : W) → P w → P (m w).1

pub Keeps->>= :
    {W A B : Type 0} (P : W → Type 0) (m : Io W A) (f : A → Io W B)
    → Keeps P m
    → ((a : A) → Keeps P (f a))
    → Keeps P (m >>= f)
Keeps->>= P m f keep rest w p = grind (arith, keep, rest)

module _ {W : Type 0} (P : W → Type 0) (s : Service W) (url : String) (rt : Runtime W)
    (now_keeps : (w : W) → P w → P (rt.now w).1)
    (update_keeps : (id : String) (m : Updates)
      → Keeps P (s.repository.update_task_status id m)) where
  conclude-Keeps :
      (receipt : String) (reply : Reply) (m : Updates)
      → (AsksRetry reply ⊎ Keeps P (s.repository.delete_task_from_queue url receipt))
      → Keeps P (conclude s url receipt reply m)
  unfolding conclude
  conclude-Keeps receipt reply m h w p = grind arith

  update_final_status-Keeps : (id : String) (m : Updates) → Keeps P (update_final_status s url id m)
  unfolding update_final_status
  update_final_status-Keeps id m w p = grind (arith, update_keeps)

  pub finish_record-Keeps :
      (receipt : String) (reply : Reply)
      → (AsksRetry reply ⊎ Keeps P (s.repository.delete_task_from_queue url receipt))
      → Keeps P (finish_record s url rt receipt reply)
  unfolding finish_record
  finish_record-Keeps receipt reply h w p =
      grind (arith, now_keeps, conclude-Keeps receipt reply, update_final_status-Keeps)

module _ {W : Type 0} (P : W → Type 0) (s : Service W) (url : String) (rt : Runtime W)
    (process_fn : ProcessFn W) (now_keeps : (w : W) → P w → P (rt.now w).1)
    (update_keeps : (id : String) (m : Updates) → Keeps P (s.repository.update_task_status id m))
    (process_keeps : (task : Task) → Keeps P (process_fn task)) where
  -- Processing the record asks for a retry whenever it comes to an end, from worlds with the
  -- property.
  abbrev pub AlwaysRetries : TaskWithReceipt → Type 0
  AlwaysRetries r =
      (task : Task) (w : W) (reply : Reply)
      → P w
      → r.task ≡ some task
      → (process_fn task w).0 ≡ ok reply
      → AsksRetry reply

  handle_record-Keeps :
      (r : TaskWithReceipt)
      → (AlwaysRetries r ⊎ Keeps P (s.repository.delete_task_from_queue url r.receipt_handle))
      → Keeps P (handle_record s url rt process_fn r)
  unfolding handle_record
  handle_record-Keeps r h w p = grind (
    arith,
    now_keeps,
    update_keeps,
    process_keeps,
    finish_record-Keeps P s url rt now_keeps update_keeps r.receipt_handle,
  )

  all_records-Keeps :
      ((receipt : String) → Keeps P (s.repository.delete_task_from_queue url receipt))
      → (rs : List TaskWithReceipt) → Keeps P (handle_records s url rt process_fn rs)
  unfolding handle_records
  all_records-Keeps delete [] w p = p
  all_records-Keeps delete (r ∷ rs) w p =
      grind
        (arith, handle_record-Keeps r (inr (delete r.receipt_handle)), all_records-Keeps delete rs)

  retried_records-Keeps :
      ((r : TaskWithReceipt) → AlwaysRetries r)
      → (rs : List TaskWithReceipt) → Keeps P (handle_records s url rt process_fn rs)
  unfolding handle_records
  retried_records-Keeps asks [] w p = p
  retried_records-Keeps asks (r ∷ rs) w p =
      grind (arith, handle_record-Keeps r (inl (asks r)), retried_records-Keeps asks rs)

  module _ (receipt : String)
      (delete_keeps : (other : String)
        → other ≢ receipt
        → Keeps P (s.repository.delete_task_from_queue url other)) where
    -- If the record has the receipt, its processing asks for a retry.
    abbrev RetriesReceipt : TaskWithReceipt → Type 0
    RetriesReceipt r = r.receipt_handle ≡ receipt → AlwaysRetries r

    spared :
        (r : TaskWithReceipt)
        → RetriesReceipt r
        → (AlwaysRetries r ⊎ Keeps P (s.repository.delete_task_from_queue url r.receipt_handle))
    spared r asks = elim (Bool-cases (str_eq r.receipt_handle receipt)) [
      | inl same ↦ inl (asks ((eq_iff _ _).0 same))
      | inr differs ↦
          inr (delete_keeps r.receipt_handle (ground (arith, eq_iff r.receipt_handle receipt)))
    ]

    handle_records-Keeps :
        (rs : List TaskWithReceipt)
        → All RetriesReceipt rs
        → Keeps P (handle_records s url rt process_fn rs)
    unfolding handle_records
    handle_records-Keeps [] asks w p = p
    handle_records-Keeps (r ∷ rs) asks w p =
        grind (arith, handle_record-Keeps r (spared r asks.0), handle_records-Keeps rs asks.1)

-- A message whose processing asks for a retry stays in the queue, whatever becomes of the other
-- messages of the round. `P` is any property of the outside world, such as "the message with this
-- receipt is in the queue", that holds when the records are received, and that the clock, status
-- updates, the processing, and the deletion of any other receipt keep. If the processing of each
-- received record with this receipt asks for a retry whenever it replies, from a world with `P`,
-- then `P` holds after the round, whatever fails or panics on the way; other records may succeed.
pub pick_up-Keeps_message :
    {W : Type 0} (P : W → Type 0) (s : Service W) (rt : Runtime W) (process_fn : ProcessFn W)
    (receipt url : String) (records : List TaskWithReceipt) (w : W)
    → s.context ≡ some url
    → (s.repository.pick_task_from_queue url w).0 ≡ ok records
    → P (s.repository.pick_task_from_queue url w).1
    → ((w : W) → P w → P (rt.now w).1)
    → ((id : String) (m : Updates) → Keeps P (s.repository.update_task_status id m))
    → ((task : Task) → Keeps P (process_fn task))
    → ((other : String) → other ≢ receipt → Keeps P (s.repository.delete_task_from_queue url other))
    → All
        (λ r.
          r.receipt_handle ≡ receipt
          → (task : Task) (v : W) (reply : Reply) → P v
          → r.task ≡ some task
          → (process_fn task v).0 ≡ ok reply
          → AsksRetry reply)
        records
    → P (pick_up_next_available_task s rt process_fn w).1
unfolding pick_up_next_available_task
pick_up-Keeps_message P s rt process_fn receipt url records w init picked held now update process
      delete asks =
    ground (
      arith,
      init,
      picked,
      handle_records-Keeps P s url rt process_fn now update process receipt delete records asks
          (s.repository.pick_task_from_queue url w).1 held,
    )

-- A round keeps what all its calls keep.
pub pick_up-Keeps :
    {W : Type 0} (P : W → Type 0) (s : Service W) (rt : Runtime W) (process_fn : ProcessFn W)
    → ((w : W) → P w → P (rt.now w).1)
    → ((url : String) → Keeps P (s.repository.pick_task_from_queue url))
    → ((id : String) (m : Updates) → Keeps P (s.repository.update_task_status id m))
    → ((task : Task) → Keeps P (process_fn task))
    → ((url receipt : String) → Keeps P (s.repository.delete_task_from_queue url receipt))
    → Keeps P (pick_up_next_available_task s rt process_fn)
unfolding pick_up_next_available_task
pick_up-Keeps P s rt process_fn now pick update process delete w p = grind (
  arith,
  pick,
  λ (url : String) (rs : List TaskWithReceipt).
      all_records-Keeps P s url rt process_fn now update process (delete url) rs,
)

-- A round in which every processing asks for a retry deletes nothing: it keeps what all its calls
-- but the deletion keep.
pub pick_up-Keeps_retried :
    {W : Type 0} (P : W → Type 0) (s : Service W) (rt : Runtime W) (process_fn : ProcessFn W)
    → ((w : W) → P w → P (rt.now w).1)
    → ((url : String) → Keeps P (s.repository.pick_task_from_queue url))
    → ((id : String) (m : Updates) → Keeps P (s.repository.update_task_status id m))
    → ((task : Task) → Keeps P (process_fn task))
    → ((task : Task) (w : W) (reply : Reply)
        → P w
        → (process_fn task w).0 ≡ ok reply
        → AsksRetry reply)
    → Keeps P (pick_up_next_available_task s rt process_fn)
unfolding pick_up_next_available_task
pick_up-Keeps_retried P s rt process_fn now pick update process asks w p = grind (
  arith,
  pick,
  λ (url : String) (rs : List TaskWithReceipt).
      retried_records-Keeps P s url rt process_fn now update process
        (λ r task v reply q same e. asks task v reply q e) rs,
)

-- A record without a task is a nil pointer: the loop panics on it, and touches nothing first.
pub handle_record_nil :
    {W : Type 0} (s : Service W) (url : String) (rt : Runtime W) (process_fn : ProcessFn W)
    (receipt : String) (rest : List TaskWithReceipt) (w : W)
    → handle_records s url rt process_fn (record { task = none; receipt_handle = receipt } ∷ rest) w
      ≡ (panic, w)
unfolding handle_records handle_record
handle_record_nil s url rt process_fn receipt rest w = refl
