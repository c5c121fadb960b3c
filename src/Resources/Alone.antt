-- ===== src/Resources/Alone.antt =====
-- pkg/api/business/resources/service.go, `TryProcessTask`: a worker that is alone, from the choice of
-- the resource on.
use bfo.Common.{
  ◌≡◌, ◌⊎◌, ◌∙◌, refl, sym, ap, true, Option, some, none, String, List, arith, ok, Runtime, Io,
  lookup, keys, ◌>>=◌,
}
use bfo.Tasks.Types.{Task}
use bfo.Tasks.Service.{Reply, with_id, with_created_at}
use bfo.Tasks.Delivery.{Keeps}
use bfo.Resources.Types.{ResourceInstanceState, Provider, CreateBatchRequest}
use bfo.Resources.Service.{
  Service, can_take, find_from, find_best_available_resource, with_estimate, chosen,
}
use bfo.Resources.Dispatch.{dispatch_reply, try_process_task}
use bfo.Resources.Capacity.{
  View, AllFit, bind-holds, same-AllFit, dispatch_task-AllFit, find_from-takes,
}

module _ {W : Type 0} (rt : Runtime W) (s : Service W) (view : View W)
    (reads : (key : String) (w : W) (found : Option ResourceInstanceState)
      → (s.repository.get_resource_instance_state key w).0 ≡ ok found
      → found ≡ view w key)
    (reading : (key other : String) (w : W)
      → view (s.repository.get_resource_instance_state key w).1 other ≡ view w other)
    (putting : (state : ResourceInstanceState) (other : String) (w : W)
      → (view (s.repository.put_resource_instance_state state w).1 other ≡ view w other)
        ⊎ (view (s.repository.put_resource_instance_state state w).1 other ≡ some state))
    (ticking : (other : String) (w : W) → view (rt.now w).1 other ≡ view w other)
    (naming : (other : String) (w : W) → view (rt.unique_id w).1 other ≡ view w other)
    (ranging : (keys : List String) (other : String) (w : W)
      → view (rt.range_keys keys w).1 other ≡ view w other)
    (creating : (key : String) (provider : Provider W)
      → lookup key s.resources ≡ some (some provider)
      → (request : CreateBatchRequest) (other : String) (w : W)
      → view (provider.create_batch request w).1 other ≡ view w other) where
  -- The resource that a call finds is registered, and takes the task as the call leaves it.
  record IsFit (found : Task × Option (Provider W × String)) (w : W) : Type 0 where
    registered :
        (provider : Provider W) (key : String)
        → found.1 ≡ some (provider, key)
        → lookup key s.resources ≡ some (some provider)
    takes :
        (provider : Provider W) (key : String)
        → found.1 ≡ some (provider, key)
        → (state : ResourceInstanceState) → view w key ≡ some state
        → can_take found.0 state ≡ true

  chosen-registered :
      (found : Option String) (provider : Provider W) (key : String)
      → chosen s found ≡ some (provider, key)
      → (found ≡ some key) × (lookup key s.resources ≡ some (some provider))
  chosen-registered none provider key e = ground arith
  chosen-registered (some k) provider key e = grind arith

  find_best-view :
      (task : Task) (other : String) (w : W)
      → view (find_best_available_resource rt s task w).1 other ≡ view w other
  unfolding find_best_available_resource
  find_best-view task other w =
      let (order, v) = rt.range_keys (keys s.resources) w in
      grind (
        arith,
        ranging (keys s.resources) other w,
        (find_from-takes rt s view reads reading putting ticking naming ranging (with_estimate task)
              order v).0
            other,
      )

  find_best-found :
      (task : Task) (w : W) (r : Task × Option (Provider W × String))
      → (find_best_available_resource rt s task w).0 ≡ ok r
      → (k : Option String) × ((find_from s.repository
            (with_estimate task)
            (rt.range_keys (keys s.resources) w).0
            (rt.range_keys (keys s.resources) w).1).0
          ≡ ok k)
        × (r.0 ≡ with_estimate task)
        × (r.1 ≡ chosen s k)
  unfolding find_best_available_resource
  find_best-found task w r e = grind arith

  find_best-IsFit :
      (task : Task) (w : W) (r : Task × Option (Provider W × String))
      → (find_best_available_resource rt s task w).0 ≡ ok r
      → IsFit r (find_best_available_resource rt s task w).1
  find_best-IsFit task w r e =
      let (k, ran, same_task, same_choice) = find_best-found task w r e in
      let (order, v) = rt.range_keys (keys s.resources) w in
      let run =
        find_from-takes rt s view reads reading putting ticking naming ranging (with_estimate task)
          order v in
      record {
        registered = λ provider key c. (chosen-registered k provider key (sym same_choice ∙ c)).1;
        takes = λ provider key c state stored.
            let picked = (chosen-registered k provider key (sym same_choice ∙ c)).0 in
            ap (λ t. can_take t state) same_task
            ∙ run.1 key (ran ∙ ap ok picked) state
                (ranging (keys s.resources) key w ∙ sym (find_best-view task key w) ∙ stored);
      }

  dispatch_reply-AllFit :
      (r : Task × Option (Provider W × String)) (w : W)
      → IsFit r w
      → AllFit view w
      → AllFit view (dispatch_reply rt s r.0 r.1 w).1
  unfolding dispatch_reply
  dispatch_reply-AllFit (task, none) w found fit = fit
  dispatch_reply-AllFit (task, some (provider, key)) w found fit = grind (
    arith,
    dispatch_task-AllFit rt s view reads reading putting ticking naming ranging provider
        (creating key provider (found.registered provider key refl)) key task w
        (found.takes provider key refl) fit,
  )

  -- from the task with its id and its time on
  abbrev after_filled : Task → Io W Reply
  after_filled task =
      find_best_available_resource rt s task >>= λ found. dispatch_reply rt s found.0 found.1

  after_filled-AllFit : (task : Task) → Keeps (AllFit view) (after_filled task)
  after_filled-AllFit task w fit =
      let v = (find_best_available_resource rt s task w).1 in
      let fit' = same-AllFit view w v (λ other. find_best-view task other w) fit in
      bind-holds (AllFit view) (find_best_available_resource rt s task)
        (λ found. dispatch_reply rt s found.0 found.1) w fit'
        (λ r e. dispatch_reply-AllFit r v (find_best-IsFit task w r e) fit')

  fill-view :
      (task : Task) (other : String) (w : W)
      → (view (with_id rt task w).1 other ≡ view w other)
        × (view (with_created_at rt task w).1 other ≡ view w other)
  unfolding with_id with_created_at
  fill-view task other w = grind (arith, ticking other w, naming other w)

  -- `TryProcessTask` keeps every stored state within its limit, however it ends.
  pub try_process_task-AllFit : (task : Task) → Keeps (AllFit view) (try_process_task rt s task)
  unfolding try_process_task
  try_process_task-AllFit task w fit =
      let v = (with_id rt task w).1 in
      let fit1 = same-AllFit view w v (λ other. (fill-view task other w).0) fit in
      bind-holds (AllFit view) (with_id rt task)
        (λ t. with_created_at rt t >>= λ t'. after_filled t') w fit1
        (λ t _.
          let u = (with_created_at rt t v).1 in
          let fit2 = same-AllFit view v u (λ other. (fill-view t other v).1) fit1 in
          bind-holds (AllFit view) (with_created_at rt t) (λ t'. after_filled t') v fit2
            (λ t' _. after_filled-AllFit t' u fit2))
