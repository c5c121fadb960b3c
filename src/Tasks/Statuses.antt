-- ===== src/Tasks/Statuses.antt =====
-- pkg/api/business/tasks/service.go: the texts that stand for the status of a task.
use mathlib.Core.Path.{subst}
use bfo.Common.{
  ◌≡◌, refl, true, some, String, List, [], ◌∷◌, arith, ok, Runtime, Time, ltb, lookup, insert,
  error_text, Res-cases, returned, failed, panicked, ap, inl, inr, Bool-cases, Option-cases, ◌>>◌,
  pure,
}
use bfo.Tasks.Types.{Task, TaskWithReceipt, Updates, string, time}
use bfo.Tasks.Service.{
  TaskResult, success, message_temporarily_failed, message_permanently_failed,
  system_temporarily_failed, system_permanently_failed, code, Service, Reply, ProcessFn,
}
use bfo.Tasks.Worker.{
  size, in_progress, set_status, delete_message, conclude, conclude_result, update_final_status,
  finish_record, handle_record, handle_records, pick_up_next_available_task,
}
use bfo.Tasks.Delivery.{Keeps}

-- The states that a worker gives a task.
pub data WorkerStatus : Type 0 where
  working : WorkerStatus
  failed_processing : WorkerStatus
  failed_for_good : WorkerStatus
  failed_unknown : WorkerStatus
  retrying_system : WorkerStatus
  retrying_message : WorkerStatus

abbrev pub status_text : WorkerStatus → String
status_text working = "in_progress_worker"
status_text failed_processing = "failed_worker_processing"
status_text failed_for_good = "failed_worker_message_permanent"
status_text failed_unknown = "failed_worker_unknown_result"
status_text retrying_system = "retrying_worker_system_failure"
status_text retrying_message = "retrying_worker_message_failure"

-- The update sets the status to one of these, and the time.
pub record IsTyped (m : Updates) : Type 0 where
  pub status : WorkerStatus
  pub at : Time
  pub has_status : lookup "Status" m ≡ some (string (status_text status))
  pub has_time : lookup "UpdatedAt" m ≡ some (time at)

in_progress-IsTyped : (now : Time) → IsTyped (in_progress now)
unfolding lookup
in_progress-IsTyped now = record { status = working; at = now; has_status = refl; has_time = refl }

set_status-IsTyped :
    (status : WorkerStatus) (now : Time)
    → IsTyped (set_status (status_text status) (("UpdatedAt", time now) ∷ []))
unfolding lookup insert
set_status-IsTyped status now = record {
  status = status;
  at = now;
  has_status = refl;
  has_time = refl;
}

last_error-IsTyped :
    (now : Time) (text : String)
    → IsTyped (
        insert "LastError"
          (string text)
          (set_status (status_text failed_processing) (("UpdatedAt", time now) ∷ [])))
unfolding lookup insert
last_error-IsTyped now text = record {
  status = failed_processing;
  at = now;
  has_status = refl;
  has_time = refl;
}

ok-injective : {A : Type 0} {a b : A} → ok a ≡ ok b → a ≡ b
ok-injective e = cc

after_delete :
    {W : Type 0} (s : Service W) (url receipt : String) (m m' : Updates) (w : W)
    → ((delete_message s url receipt >> pure m) w).0 ≡ ok m'
    → m ≡ m'
after_delete s url receipt m m' w e =
    elim (Res-cases (s.repository.delete_task_from_queue url receipt w).0) [
      | returned a r ↦ ground (arith, r)
      | failed err r ↦ ground (arith, r)
      | panicked r ↦ ground (arith, r)
    ]

module _ {W : Type 0} (s : Service W) (url receipt : String) where
  conclude_result-IsTyped :
      (result : TaskResult) (now : Time) (m : Updates) (w : W)
      → (conclude_result s url receipt result (("UpdatedAt", time now) ∷ []) w).0 ≡ ok m
      → ltb 1 (size m) ≡ true
      → IsTyped m
  unfolding conclude_result
  conclude_result-IsTyped success now m w e many =
      cc
        (ap (λ x. ltb 1 (size x)) (after_delete s url receipt (("UpdatedAt", time now) ∷ []) m w e))
  conclude_result-IsTyped message_temporarily_failed now m w e many =
      subst IsTyped (ok-injective e) (set_status-IsTyped retrying_message now)
  conclude_result-IsTyped message_permanently_failed now m w e many =
      subst IsTyped (after_delete s url receipt _ m w e) (set_status-IsTyped failed_for_good now)
  conclude_result-IsTyped system_temporarily_failed now m w e many =
      subst IsTyped (ok-injective e) (set_status-IsTyped retrying_system now)
  conclude_result-IsTyped system_permanently_failed now m w e many =
      subst IsTyped (after_delete s url receipt _ m w e) (set_status-IsTyped failed_unknown now)
  conclude_result-IsTyped (code n) now m w e many =
      subst IsTyped (after_delete s url receipt _ m w e) (set_status-IsTyped failed_unknown now)

  conclude-IsTyped :
      (reply : Reply) (now : Time) (m : Updates) (w : W)
      → (conclude s url receipt reply (("UpdatedAt", time now) ∷ []) w).0 ≡ ok m
      → ltb 1 (size m) ≡ true
      → IsTyped m
  unfolding conclude
  conclude-IsTyped reply now m w e many = elim (Option-cases reply.error) [
    | inl unset ↦ conclude_result-IsTyped reply.result now m w (ground (arith, unset)) many
    | inr (err, set) ↦ subst IsTyped (ground (arith, set)) (last_error-IsTyped now (error_text err))
  ]

module _ {W : Type 0} (P : W → Type 0) (s : Service W) (url : String) (rt : Runtime W)
    (process_fn : ProcessFn W) (now : (w : W) → P w → P (rt.now w).1)
    (update : (id : String) (m : Updates)
      → IsTyped m
      → Keeps P (s.repository.update_task_status id m))
    (process : (task : Task) → Keeps P (process_fn task))
    (delete : (receipt : String) → Keeps P (s.repository.delete_task_from_queue url receipt)) where
  update_final_status-typed :
      (id : String) (m : Updates)
      → (ltb 1 (size m) ≡ true → IsTyped m)
      → Keeps P (update_final_status s url id m)
  unfolding update_final_status
  update_final_status-typed id m typed w p = elim (Bool-cases (ltb 1 (size m))) [
    | inl many ↦ ground (arith, many, update id m (typed many) w p)
    | inr few ↦ ground (arith, few)
  ]

  conclude-Keeps_all :
      (receipt : String) (reply : Reply) (m : Updates) → Keeps P (conclude s url receipt reply m)
  unfolding conclude conclude_result
  conclude-Keeps_all receipt reply m w p = grind (arith, delete receipt)

  finish_record-typed :
      (receipt : String) (reply : Reply) → Keeps P (finish_record s url rt receipt reply)
  unfolding finish_record
  finish_record-typed receipt reply w p =
      let (at, w1) = rt.now w in
      let kept = conclude-Keeps_all receipt reply (("UpdatedAt", time at) ∷ []) w1 (now w p) in
      let (r, w2) = conclude s url receipt reply (("UpdatedAt", time at) ∷ []) w1 in
      elim (Res-cases r) [
        | returned m e ↦ ground (
          arith,
          e,
          update_final_status-typed reply.task.id m (conclude-IsTyped s url receipt reply at m w1 e)
              w2 kept,
        )
        | failed err e ↦ ground (arith, e, kept)
        | panicked e ↦ ground (arith, e, kept)
      ]

  handle_record-typed : (r : TaskWithReceipt) → Keeps P (handle_record s url rt process_fn r)
  unfolding handle_record
  handle_record-typed r w p = grind (
    arith,
    now,
    process,
    finish_record-typed r.receipt_handle,
    λ (id : String) (t : Time). update id (in_progress t) (in_progress-IsTyped t),
  )

  handle_records-typed :
      (rs : List TaskWithReceipt) → Keeps P (handle_records s url rt process_fn rs)
  unfolding handle_records
  handle_records-typed [] w p = p
  handle_records-typed (r ∷ rs) w p =
      grind (arith, handle_record-typed r w p, handle_records-typed rs)

-- The status of a task, which is a text, has the type of an enumeration: a round of the worker,
-- however it ends, keeps every property of the outside world that receiving, processing, the
-- clock and deletions keep, and of the status updates only those that set `Status` to one of six
-- texts and `UpdatedAt` to a time.
pub pick_up-IsTyped :
    {W : Type 0} (P : W → Type 0) (s : Service W) (rt : Runtime W) (process_fn : ProcessFn W)
    → ((w : W) → P w → P (rt.now w).1)
    → ((url : String) → Keeps P (s.repository.pick_task_from_queue url))
    → ((id : String) (m : Updates) → IsTyped m → Keeps P (s.repository.update_task_status id m))
    → ((task : Task) → Keeps P (process_fn task))
    → ((url receipt : String) → Keeps P (s.repository.delete_task_from_queue url receipt))
    → Keeps P (pick_up_next_available_task s rt process_fn)
unfolding pick_up_next_available_task
pick_up-IsTyped P s rt process_fn now pick update process delete w p = grind (
  arith,
  pick,
  λ (url : String) (rs : List TaskWithReceipt).
      handle_records-typed P s url rt process_fn now update process (delete url) rs,
)
