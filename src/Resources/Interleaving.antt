-- ===== src/Resources/Interleaving.antt =====
-- pkg/api/business/resources/service.go, `DispatchTask`: the code as moves of one worker, and what
-- no interleaving changes.
use bfo.Common.{
  ◌≡◌, ◌≢◌, ◌⊎◌, inl, inr, refl, sym, ap, ◌∙◌, arith, Option, some, none, String, ok, fail, panic,
  Res, GoError, Runtime,
}
use bfo.Tasks.Types.{Task}
use bfo.Resources.Types.{ResourceInstanceState, Batch, Provider, CreateBatchRequest}
use bfo.Resources.Service.{Service}
use bfo.Resources.Dispatch.{book, unbook, dispatch_task, batch_request, create_batch, settle_batch}
use bfo.Resources.Workers.{
  Pc, chosen, booked, accepted, rejected, read, read_failed, store, store_failed, accept, refuse,
  roll_back, roll_back_failed, Moves, stay, go,
}

-- The worker's end after a result of `DispatchTask`.
abbrev pub ending : Task → Res Batch → Pc
ending t (ok _) = accepted t
ending t (fail _) = rejected t
ending t panic = rejected t

ends_at :
    {m m1 m2 : ResourceInstanceState} {p p1 p2 : Pc}
    → Moves m p m1 p1
    → m1 ≡ m2
    → p1 ≡ p2
    → Moves m p m2 p2
ends_at {m} {p = p} moves same_state same_pc = rw (sym same_state, sym same_pc) moves

then :
    {m m1 : ResourceInstanceState} {p p1 : Pc} {m2 : ResourceInstanceState} {p2 : Pc}
    → Moves m p m1 p1
    → Moves m1 p1 m2 p2
    → Moves m p m2 p2
then moves stay = moves
then moves (go others move) = go (then moves others) move

module _ {W : Type 0} (rt : Runtime W) (s : Service W) (key : String) (provider : Provider W)
    (view : W → ResourceInstanceState)
    (reads : (w : W)
      → (((s.repository.get_resource_instance_state key w).0 ≡ ok (some (view w)))
          ⊎ ((e : GoError) × ((s.repository.get_resource_instance_state key w).0 ≡ fail e))))
    (reading : (w : W) → view (s.repository.get_resource_instance_state key w).1 ≡ view w)
    (puts : (state : ResourceInstanceState) (w : W)
      → (((s.repository.put_resource_instance_state state w).0 ≡ ok tt)
          × (view (s.repository.put_resource_instance_state state w).1 ≡ state))
        ⊎ ((e : GoError) × ((s.repository.put_resource_instance_state state w).0 ≡ fail e)
            × (view (s.repository.put_resource_instance_state state w).1 ≡ view w)))
    (ticking : (w : W) → view (rt.now w).1 ≡ view w)
    (creating : (request : CreateBatchRequest) (w : W)
      → view (provider.create_batch request w).1 ≡ view w) where
  settle_batch-Moves :
      (task : Task) (state : ResourceInstanceState) (r : Res (Option Batch)) (w : W)
      → (settle_batch rt s task state r w).0 ≢ panic
      → Moves
          (view w)
          (booked task state)
          (view (settle_batch rt s task state r w).1)
          (ending task (settle_batch rt s task state r w).0)
  unfolding settle_batch
  settle_batch-Moves task state (ok none) w returns = absurd (returns refl)
  settle_batch-Moves task state (ok (some b)) w returns = go stay accept
  settle_batch-Moves task state (fail e) w returns = elim (puts (unbook task state) w) [
    | inl (done, now_) ↦ ends_at (go (go stay refuse) roll_back) (ground arith) (ground arith)
    | inr (e', failed_, kept) ↦
        ends_at (go (go stay refuse) roll_back_failed) (ground arith) (ground arith)
  ]
  settle_batch-Moves task state panic w returns = absurd (returns refl)

  create_batch-Moves :
      (task : Task) (state : ResourceInstanceState) (w : W)
      → (create_batch rt s provider key task state w).0 ≢ panic
      → Moves
          (view w)
          (booked task state)
          (view (create_batch rt s provider key task state w).1)
          (ending task (create_batch rt s provider key task state w).0)
  unfolding create_batch
  create_batch-Moves task state w returns =
      let (r, w') = provider.create_batch (batch_request key task) w in
      rw (sym (creating (batch_request key task) w)) (settle_batch-Moves task state r w' returns)

  dispatch_task-create :
      (task : Task) (w : W)
      → (s.repository.get_resource_instance_state key w).0 ≡ ok (some (view w))
      → let (now, w2) = rt.now (s.repository.get_resource_instance_state key w).1 in
        (s.repository.put_resource_instance_state (book task now (view w)) w2).0 ≡ ok tt
        → dispatch_task rt s key provider task w
          ≡ create_batch rt s provider key task
              (book task now (view w))
              (s.repository.put_resource_instance_state (book task now (view w)) w2).1
  unfolding dispatch_task
  dispatch_task-create task w found put = ground (arith, found, put)

  -- A run of `DispatchTask` is a run of moves of one worker from its start to its end: `view`
  -- is the stored state of the resource; reading it gives it or fails, a put that succeeds
  -- stores its argument and one that fails stores nothing, and neither reading, the clock nor
  -- the provider changes it. Then each call that does not panic takes the stored state by moves
  -- to what it leaves, and the worker ends with its batch accepted where the call succeeds, and
  -- rejected where it fails.
  pub dispatch_task-Moves :
      (task : Task) (w : W)
      → (dispatch_task rt s key provider task w).0 ≢ panic
      → Moves
          (view w)
          (chosen task)
          (view (dispatch_task rt s key provider task w).1)
          (ending task (dispatch_task rt s key provider task w).0)
  unfolding dispatch_task
  dispatch_task-Moves task w returns =
      let w1 = (s.repository.get_resource_instance_state key w).1 in
      let (now, w2) = rt.now w1 in
      let w3 = (s.repository.put_resource_instance_state (book task now (view w)) w2).1 in
      elim (reads w) [
        | inr (e, unread) ↦ ends_at (go stay read_failed) (grind (arith, reading)) (grind arith)
        | inl found ↦ elim (puts (book task now (view w)) w2) [
          | inr (e, unput, kept) ↦
              ends_at (go (go stay read) store_failed) (grind (arith, reading, ticking))
                (grind arith)
          | inl (put, stored) ↦
              let created = dispatch_task-create task w found put in
              ends_at
                (then (ends_at (go (go stay read) (store now)) (sym stored) refl) (
                  create_batch-Moves task (book task now (view w)) w3
                    (λ e. returns (ap (λ x. x.0) created ∙ e))))
                (ap (λ x. view x.1) (sym created)) (ap (λ x. ending task x.0) (sym created))
        ]
      ]
