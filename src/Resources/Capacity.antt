-- ===== src/Resources/Capacity.antt =====
-- pkg/api/business/resources/service.go: a worker that is alone never exceeds a limit of batches.
use mathlib.Core.Path.{subst}
use mathlib.Core.Option.{some-injective}
use bfo.Common.{
  ◌∙◌, ◌>>=◌, GoError, map_error, always, deref, ◌<>◌, ◌>>◌, wrap, on_error, ◌≡◌, ◌⊎◌, inl, inr,
  refl, sym, true, Option, some, none, String, List, [], ◌∷◌, arith, ok, fail, panic, Res, Time,
  Runtime, Io,
}
use bfo.Tasks.Types.{Task}
use bfo.Tasks.Delivery.{Keeps}
use bfo.Resources.Types.{ResourceInstanceState, Provider, CreateBatchRequest, Batch}
use bfo.Resources.Service.{Service, can_take, takes, read_state, find_from}
use bfo.Resources.Dispatch.{book, unbook, settle_batch, create_batch, batch_request, dispatch_task}
use bfo.Resources.Serial.{Fits, HasRoom, IsBooked, can_take-HasRoom, book-IsBooked, unbook-Fits}

abbrev pub View : Type 0 → Type 0
View W = W → String → Option ResourceInstanceState

-- Every stored state is within its limit.
abbrev pub AllFit : {W : Type 0} → View W → W → Type 0
AllFit view w =
    (key : String) (state : ResourceInstanceState) → view w key ≡ some state → Fits state

-- A world with the same stored states will do.
pub same-AllFit :
    {W : Type 0} (view : View W) (w v : W)
    → ((other : String) → view v other ≡ view w other)
    → AllFit view w
    → AllFit view v
same-AllFit view w v same fit key state found = fit key state (sym (same key) ∙ found)

pub bind-holds :
    {W A B : Type 0} (P : W → Type 0) (m : Io W A) (f : A → Io W B) (w : W)
    → P (m w).1
    → ((a : A) → (m w).0 ≡ ok a → P (f a (m w).1).1)
    → P ((m >>= f) w).1
bind-holds P m f w stops goes = grind (arith, goes)

unwrapped :
    {A : Type 0} (f : GoError → GoError) (r : Res A) (a : A) → map_error f r ≡ ok a → r ≡ ok a
unwrapped f (ok b) a e = e
unwrapped f (fail e') a e = ground arith
unwrapped f panic a e = ground arith

module _ {W : Type 0} (rt : Runtime W) (s : Service W) (view : View W)
    (reads : (key : String) (w : W) (found : Option ResourceInstanceState)
      → (s.repository.get_resource_instance_state key w).0 ≡ ok found
      → found ≡ view w key)
    (reading : (key other : String) (w : W)
      → view (s.repository.get_resource_instance_state key w).1 other ≡ view w other)
    (putting : (state : ResourceInstanceState) (other : String) (w : W)
      → (view (s.repository.put_resource_instance_state state w).1 other ≡ view w other)
        ⊎ (view (s.repository.put_resource_instance_state state w).1 other ≡ some state))
    (ticking : (other : String) (w : W) → view (rt.now w).1 other ≡ view w other)
    (naming : (other : String) (w : W) → view (rt.unique_id w).1 other ≡ view w other)
    (ranging : (keys : List String) (other : String) (w : W)
      → view (rt.range_keys keys w).1 other ≡ view w other) where
  put-AllFit :
      (state : ResourceInstanceState)
      → Fits state
      → Keeps (AllFit view) (s.repository.put_resource_instance_state state)
  put-AllFit state fits w fit key found same = elim (putting state key w) [
    | inl kept ↦ fit key found (sym kept ∙ same)
    | inr stored ↦ subst Fits (some-injective state found (sym stored ∙ same)) fits
  ]

  settle_batch-AllFit :
      (task : Task) (state : ResourceInstanceState) (r : Res (Option Batch))
      → IsBooked state
      → Keeps (AllFit view) (settle_batch rt s task state r)
  unfolding settle_batch
  settle_batch-AllFit task state (ok none) booked w fit = fit
  settle_batch-AllFit task state (ok (some b)) booked w fit = fit
  settle_batch-AllFit task state (fail e) booked w fit =
      grind (arith, put-AllFit (unbook task state) (unbook-Fits task state booked) w fit)
  settle_batch-AllFit task state panic booked w fit = fit

  create_batch-AllFit :
      (provider : Provider W)
      → ((request : CreateBatchRequest) (other : String) (w : W)
          → view (provider.create_batch request w).1 other ≡ view w other)
      → (key : String) (task : Task) (state : ResourceInstanceState) → IsBooked state
      → Keeps (AllFit view) (create_batch rt s provider key task state)
  unfolding create_batch
  create_batch-AllFit provider creating key task state booked w fit =
      let (r, v) = provider.create_batch (batch_request key task) w in
      settle_batch-AllFit task state r booked v
        (same-AllFit view w v (λ other. creating (batch_request key task) other w) fit)

  book-AllFit :
      (provider : Provider W)
      → ((request : CreateBatchRequest) (other : String) (w : W)
          → view (provider.create_batch request w).1 other ≡ view w other)
      → (key : String) (task : Task) (state : ResourceInstanceState) (now : Time) → HasRoom state
      → Keeps (AllFit view) (
          on_error
            (wrap ("failed to update resource state for " <> key))
            (s.repository.put_resource_instance_state (book task now state))
          >> create_batch rt s provider key task (book task now state))
  book-AllFit provider creating key task state now room w fit = grind (
    arith,
    put-AllFit (book task now state) (book-IsBooked task now state room).fits w fit,
    λ (v : W).
        create_batch-AllFit provider creating key task (book task now state)
          (book-IsBooked task now state room) v,
  )

  -- `DispatchTask` from the state that it has read
  abbrev after_read : Provider W → String → Task → Option ResourceInstanceState → Io W Batch
  after_read provider key task found = deref found >>= λ state. always rt.now >>= λ now.
      on_error (wrap ("failed to update resource state for " <> key))
        (s.repository.put_resource_instance_state (book task now state))
      >> create_batch rt s provider key task (book task now state)

  read-AllFit :
      (provider : Provider W)
      → ((request : CreateBatchRequest) (other : String) (w : W)
          → view (provider.create_batch request w).1 other ≡ view w other)
      → (key : String) (task : Task) (found : Option ResourceInstanceState)
      → ((state : ResourceInstanceState) → found ≡ some state → HasRoom state)
      → Keeps (AllFit view) (after_read provider key task found)
  read-AllFit provider creating key task none room w fit = fit
  read-AllFit provider creating key task (some state) room w fit =
      let (now, v) = rt.now w in
      book-AllFit provider creating key task state now (room state refl) v
        (same-AllFit view w v (λ other. ticking other w) fit)

  pub dispatch_task-AllFit :
      (provider : Provider W)
      → ((request : CreateBatchRequest) (other : String) (w : W)
          → view (provider.create_batch request w).1 other ≡ view w other)
      → (key : String) (task : Task) (w : W)
      → ((state : ResourceInstanceState) → view w key ≡ some state → can_take task state ≡ true)
      → AllFit view w
      → AllFit view (dispatch_task rt s key provider task w).1
  unfolding dispatch_task
  dispatch_task-AllFit provider creating key task w takes fit =
      let v = (s.repository.get_resource_instance_state key w).1 in
      let fit' = same-AllFit view w v (λ other. reading key other w) fit in
      bind-holds (AllFit view)
        (on_error (wrap ("failed to get resource state for " <> key))
          (s.repository.get_resource_instance_state key))
        (after_read provider key task) w fit'
        (λ found e.
          read-AllFit provider creating key task found
            (λ state same.
              let stored = sym (reads key w found (unwrapped _ _ found e)) ∙ same in
              can_take-HasRoom task state (fit key state stored) (takes state stored))
            v fit')

  read_state-view :
      (key other : String) (w : W) → view (read_state s.repository key w).1 other ≡ view w other
  unfolding read_state
  read_state-view key other w = reading key other w

  read_state-takes :
      (task : Task) (key : String) (w : W) (found : Option ResourceInstanceState)
      → (read_state s.repository key w).0 ≡ ok found
      → takes task found ≡ true
      → (state : ResourceInstanceState) → view w key ≡ some state
      → can_take task state ≡ true
  unfolding read_state
  read_state-takes task key w found e yes_ state same = grind (arith, reads key w)

  -- What the loop finds takes the task, in the world in which the loop began.
  pub find_from-takes :
      (task : Task) (keys : List String) (w : W)
      → ((other : String) → view (find_from s.repository task keys w).1 other ≡ view w other)
        × ((key : String)
            → (find_from s.repository task keys w).0 ≡ ok (some key)
            → (state : ResourceInstanceState) → view w key ≡ some state
            → can_take task state ≡ true)
  unfolding find_from
  find_from-takes task [] w = (λ other. refl, λ key e. ground arith)
  find_from-takes task (key ∷ keys) w =
      let v = (read_state s.repository key w).1 in
      let rest = find_from-takes task keys v in
      (
        λ other. grind (arith, read_state-view key other w, rest.0 other),
        λ found e state same.
            grind (arith, read_state-view key found w, read_state-takes task key w, rest.1 found),
      )
