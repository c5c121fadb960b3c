-- ===== src/Tasks/Rounds.antt =====
-- pkg/api/business/tasks/service.go, `PickUpNextAvailableTask`: a round makes the calls that are
-- planned.
use mathlib.Core.List.{append_assoc, append-nil}
use bfo.Common.{
  insert, error_text, sym, ltb, Time, ◌≡◌, refl, String, true, Option, some, none, List, [], ◌∷◌,
  ◌++◌, Res, ok, GoError, arith, Runtime, lookup, Returns, is_ok,
}
use bfo.Tasks.Types.{Task, Updates, UpdateValue, string, time}
use bfo.Tasks.Service.{
  TaskResult, success, message_temporarily_failed, message_permanently_failed,
  system_temporarily_failed, system_permanently_failed, code, Service, Reply, ProcessFn,
}
use bfo.Tasks.Worker.{
  handle_record, handle_records, finish_record, conclude, conclude_result, update_final_status,
  set_status, size, in_progress, pick_up_next_available_task, pick_up_next_available_task,
}
use bfo.Tasks.Plan.{
  Call, updated, deleted, Verdict, verdict_of, verdict, is_some, removal, final_status,
  final_update, plan_of, plan, records,
}

module _ {W : Type 0} (s : Service W) (url : String) (rt : Runtime W) (view : W → List Call)
    (process : Task → Reply) (process_fn : ProcessFn W)
    (processes : (t : Task) (w : W) → (process_fn t w).0 ≡ ok (process t))
    (processing : (t : Task) (w : W) → view (process_fn t w).1 ≡ view w)
    (ticking : (w : W) → view (rt.now w).1 ≡ view w)
    (updates : (id : String) (m : Updates) → Returns (s.repository.update_task_status id m))
    (updating : (id : String) (m : Updates) (w : W)
      → view (s.repository.update_task_status id m w).1
        ≡ view w ++ updated id (lookup "Status" m) ∷ [])
    (deletes : (receipt : String) → Returns (s.repository.delete_task_from_queue url receipt))
    (deleting : (receipt : String) (w : W)
      → view (s.repository.delete_task_from_queue url receipt w).1
        ≡ view w ++ deleted receipt ∷ []) where
  -- what is left of `conclude`: the updates, and the deletion where there is one
  record Concludes (receipt : String) (v : Verdict) (w : W) (r : Res Updates × W) : Type 0 where
    updates_ : Updates
    returned : r.0 ≡ ok updates_
    has_status : lookup "Status" updates_ ≡ final_status v
    is_sent : ltb 1 (size updates_) ≡ is_some (final_status v)
    seen : view r.1 ≡ view w ++ removal receipt v

  kept : (w : W) → view w ≡ view w ++ []
  kept w = sym (append-nil (view w))

  conclude_result-Concludes :
      (receipt : String) (result : TaskResult) (now : Time) (w : W)
      → Concludes receipt
          (verdict_of result)
          w
          (conclude_result s url receipt result (("UpdatedAt", time now) ∷ []) w)
  unfolding conclude_result lookup insert
  conclude_result-Concludes receipt success now w = record {
    updates_ = ("UpdatedAt", time now) ∷ [];
    returned = grind (arith, deletes receipt);
    has_status = refl;
    is_sent = refl;
    seen = grind (arith, deletes receipt, deleting receipt);
  }
  conclude_result-Concludes receipt message_temporarily_failed now w = record {
    updates_ = _;
    returned = refl;
    has_status = refl;
    is_sent = refl;
    seen = kept w;
  }
  conclude_result-Concludes receipt system_temporarily_failed now w = record {
    updates_ = _;
    returned = refl;
    has_status = refl;
    is_sent = refl;
    seen = kept w;
  }
  conclude_result-Concludes receipt message_permanently_failed now w = record {
    updates_ = set_status "failed_worker_message_permanent" (("UpdatedAt", time now) ∷ []);
    returned = grind (arith, deletes receipt);
    has_status = refl;
    is_sent = refl;
    seen = grind (arith, deletes receipt, deleting receipt);
  }
  conclude_result-Concludes receipt system_permanently_failed now w = record {
    updates_ = set_status "failed_worker_unknown_result" (("UpdatedAt", time now) ∷ []);
    returned = grind (arith, deletes receipt);
    has_status = refl;
    is_sent = refl;
    seen = grind (arith, deletes receipt, deleting receipt);
  }
  conclude_result-Concludes receipt (code n) now w = record {
    updates_ = set_status "failed_worker_unknown_result" (("UpdatedAt", time now) ∷ []);
    returned = grind (arith, deletes receipt);
    has_status = refl;
    is_sent = refl;
    seen = grind (arith, deletes receipt, deleting receipt);
  }

  conclude-Concludes :
      (receipt : String) (reply : Reply) (e : Option GoError) (now : Time) (w : W)
      → reply.error ≡ e
      → Concludes receipt
          (verdict e reply.result)
          w
          (conclude s url receipt reply (("UpdatedAt", time now) ∷ []) w)
  unfolding conclude lookup insert
  conclude-Concludes receipt reply none now w same =
      rw same (conclude_result-Concludes receipt reply.result now w)
  conclude-Concludes receipt reply (some e) now w same = record {
    updates_ =
        insert "LastError" (string (error_text e))
          (set_status "failed_worker_processing" (("UpdatedAt", time now) ∷ []));
    returned = ground (arith, same);
    has_status = refl;
    is_sent = refl;
    seen = ground (arith, same, kept w);
  }

  update_final_status-update :
      (id : String) (m : Updates) (status : Option UpdateValue) (w : W)
      → lookup "Status" m ≡ status
      → ltb 1 (size m) ≡ is_some status
      → (is_ok (update_final_status s url id m w).0 ≡ true)
        × (view (update_final_status s url id m w).1 ≡ view w ++ final_update id status)
  unfolding update_final_status
  update_final_status-update id m none w same sent = grind (arith, kept w)
  update_final_status-update id m (some status) w same sent =
      grind (arith, updates id m, updating id m w)

  abbrev last_calls : String → Reply → List Call
  last_calls receipt reply =
      removal receipt (verdict reply.error reply.result)
      ++ final_update reply.task.id (final_status (verdict reply.error reply.result))

  finish_record-calls :
      (receipt : String) (reply : Reply) (w : W)
      → ((finish_record s url rt receipt reply w).0 ≡ ok tt)
        × (view (finish_record s url rt receipt reply w).1 ≡ view w ++ last_calls receipt reply)
  unfolding finish_record
  finish_record-calls receipt reply w =
      let (now, w1) = rt.now w in
      let c = conclude-Concludes receipt reply reply.error now w1 refl in
      let w2 = (conclude s url receipt reply (("UpdatedAt", time now) ∷ []) w1).1 in
      let u =
        update_final_status-update reply.task.id c.updates_
          (final_status (verdict reply.error reply.result)) w2 c.has_status c.is_sent in
      grind (
        arith,
        ticking w,
        c.returned,
        c.seen,
        u.0,
        u.1,
        append_assoc (view w) (removal receipt (verdict reply.error reply.result))
            (final_update reply.task.id (final_status (verdict reply.error reply.result))),
      )

  handle_record-calls :
      (t : Task) (receipt : String) (w : W)
      → ((handle_record s url rt process_fn
            (record { task = some t; receipt_handle = receipt })
            w).0
          ≡ ok tt)
        × (view
              (handle_record s url rt process_fn
                (record { task = some t; receipt_handle = receipt })
                w).1
            ≡ view w ++ plan_of receipt t.id (process t))
  unfolding handle_record lookup
  handle_record-calls t receipt w =
      let (now, w1) = rt.now w in
      let w2 = (s.repository.update_task_status t.id (in_progress now) w1).1 in
      let w3 = (process_fn t w2).1 in
      ground (
        arith,
        ticking w,
        updates t.id (in_progress now) w1,
        updating t.id (in_progress now) w1,
        processes t w2,
        processing t w2,
        finish_record-calls receipt (process t) w3,
        append_assoc (view w) (updated t.id (some (string "in_progress_worker")) ∷ [])
            (last_calls receipt (process t)),
      )

  handle_records-plan :
      (entries : List (Task × String)) (w : W)
      → ((handle_records s url rt process_fn (records entries) w).0 ≡ ok tt)
        × (view (handle_records s url rt process_fn (records entries) w).1
            ≡ view w ++ plan process entries)
  unfolding handle_records
  handle_records-plan [] w = (refl, kept w)
  handle_records-plan (entry ∷ rest) w = grind (
    arith,
    handle_record-calls entry.0 entry.1 w,
    handle_records-plan rest,
    append_assoc (view w) (plan_of entry.1 entry.0.id (process entry.0)) (plan process rest),
  )

  -- A round of the worker changes the repository as the table of decisions says, and always
  -- ends well: `view` is the sequence of status updates and deletions that were made;
  -- processing gives the reply that `process` gives, and only updates and deletions add to the
  -- view, whether they succeed or fail. Then, on an initialised service that receives these
  -- tasks, the round succeeds, and has made for each task in turn the update to
  -- "in_progress_worker", the deletion where the verdict on its reply asks for one, and the
  -- update to the status of the verdict where it has one.
  pub pick_up-plan :
      (entries : List (Task × String)) (w : W)
      → s.context ≡ some url
      → (s.repository.pick_task_from_queue url w).0 ≡ ok (records entries)
      → view (s.repository.pick_task_from_queue url w).1 ≡ view w
      → ((pick_up_next_available_task s rt process_fn w).0 ≡ ok tt)
        × (view (pick_up_next_available_task s rt process_fn w).1 ≡ view w ++ plan process entries)
  unfolding pick_up_next_available_task
  pick_up-plan entries w init picked same =
      ground (arith, handle_records-plan entries (s.repository.pick_task_from_queue url w).1)
