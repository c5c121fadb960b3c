-- ===== src/Resources/Booking.antt =====
-- pkg/api/business/resources/service.go, `DispatchTask`: how a resource's state is booked and, when
-- the provider refuses, given back.
use bfo.Common.{
  ◌+◌, ◌≤◌, ◌≡◌, true, Time, IsNonNeg, ge64, add64-lt, Succeeds, none, some, String, arith, IsWord,
  add64, sub64-add64, ok, fail, panic, GoError, wrap, ◌<>◌, Runtime,
}
use bfo.Tasks.Types.{Task}
use bfo.Resources.Types.{ResourceInstanceState, CreateBatchRequest, Provider}
use bfo.Resources.Service.{Service, token_need, can_take}
use bfo.Resources.Dispatch.{batch_request, book, unbook, settle_batch, create_batch, dispatch_task}

-- Every counter of the state is a 64-bit word.
pub record HasWords (state : ResourceInstanceState) : Type 0 where
  pub load : IsWord state.current_token_load
  pub batches : IsWord state.active_batches

token_need-IsWord : (task : Task) → IsWord (token_need task)
token_need-IsWord task = add64-lt task.estimated_input_tokens task.max_tokens

-- Giving back what was booked restores the batches and the token load exactly, also where they
-- wrapped around; the time of the booking stays, the version has gone up by two, and all other
-- fields are as they were.
pub unbook-book :
    (task : Task) (now : Time) (state : ResourceInstanceState)
    → HasWords state
    → unbook task (book task now state)
      ≡ record state { last_activity_time = now; version = add64 (add64 state.version 1) 1 }
unfolding unbook book
unbook-book task now state h = rw (
  sub64-add64 state.current_token_load (token_need task) h.load (token_need-IsWord task),
  sub64-add64 state.active_batches 1 h.batches (omega arith),
)

-- A provider's refusal is undone: if the state of the resource is read, both states are stored,
-- and the provider refuses with `e`, then what is stored last has the batches and the token load
-- that were read, and the caller gets `e`, wrapped.
pub dispatch_task-refused :
    {W : Type 0} (rt : Runtime W) (s : Service W) (key : String) (provider : Provider W)
    (task : Task) (state : ResourceInstanceState) (e : GoError) (w w1 : W)
    → HasWords state
    → s.repository.get_resource_instance_state key w ≡ (ok (some state), w1)
    → ((stored : ResourceInstanceState)
        → Succeeds (s.repository.put_resource_instance_state stored))
    → ((request : CreateBatchRequest) (v : W) → (provider.create_batch request v).0 ≡ fail e)
    → let (now, w2) = rt.now w1 in
      let w3 = (s.repository.put_resource_instance_state (book task now state) w2).1 in
      let w4 = (provider.create_batch (batch_request key task) w3).1 in
      let restored = record state {
        last_activity_time = now;
        version = add64 (add64 state.version 1) 1;
      } in
      dispatch_task rt s key provider task w ≡ (
        fail (wrap ("failed to create batch for task " <> task.id) e),
        (s.repository.put_resource_instance_state restored w4).1,
      )
unfolding dispatch_task create_batch settle_batch
dispatch_task-refused rt s key provider task state e w w1 words read put refuses =
    let (now, w2) = rt.now w1 in
    let w3 = (s.repository.put_resource_instance_state (book task now state) w2).1 in
    let w4 = (provider.create_batch (batch_request key task) w3).1 in
    ground (
      arith,
      put (book task now state) w2,
      put (unbook task (book task now state)) w4,
      refuses (batch_request key task) w3,
      unbook-book task now state words,
    )

-- A state that the store does not have comes back as nil with no error, and dispatching to such a
-- resource panics, before anything is stored and before the provider is called.
pub dispatch_task-nil :
    {W : Type 0} (rt : Runtime W) (s : Service W) (key : String) (provider : Provider W)
    (task : Task) (w w1 : W)
    → s.repository.get_resource_instance_state key w ≡ (ok none, w1)
    → dispatch_task rt s key provider task w ≡ (panic, w1)
unfolding dispatch_task
dispatch_task-nil rt s key provider task w w1 read = ground arith

-- A resource that passes the tests of the choice stays within its limit of batches when the task is
-- booked on it: one batch more than before, and no more than the limit.
pub book-le-max :
    (task : Task) (now : Time) (state : ResourceInstanceState)
    → IsNonNeg state.active_batches
    → IsNonNeg state.max_concurrent_batches
    → can_take task state ≡ true
    → let booked = book task now state in
      (booked.active_batches ≡ state.active_batches + 1)
      × (booked.active_batches ≤ booked.max_concurrent_batches)
unfolding book can_take ge64 add64
book-le-max task now state active limit h = ground arith
