-- ===== src/Tests/Sharing.antt =====
-- The theorems on workers that share a resource at concrete inputs.
use mathlib.Core.List.{map}
use bfo.Common.{
  ge64, ◌≡◌, refl, inl, ok, none, some, [], ◌∷◌, arith, fail, plain, pure, Runtime, add64, gt64,
  List,
}
use bfo.Tasks.Types.{Task}
use bfo.Resources.Types.{ResourceInstanceState}
use bfo.Resources.Service as Resources
use bfo.Resources.Service.{can_take, token_need}
use bfo.Resources.Dispatch.{dispatch_task, book, create_batch, settle_batch}
use bfo.Resources.Workers.{
  seeking, chosen, holding, booked, accepted, rejected, choose, turned_away, read, store, accept,
  Moves, stay, go, System, step, Reach, here, later,
}
use bfo.Resources.Interleaving.{ending, dispatch_task-Moves}
use bfo.Resources.Serial.{none_left, turn, Fits, InTurn-Fits}
use bfo.Resources.Books.{Balances}
use bfo.Resources.Ledger.{no_turns, next_turn, OnBooks, Turns-Balances}
use bfo.Resources.Limits.{HasLimits, limits, Reach-HasLimits}
use bfo.Resources.Exhaustion.{Stuck, Reach-full}
use bfo.Resources.Overbooking.{overbooked}
use bfo.Providers.Exchange.{Net, Response}
use bfo.Providers.Echo as Echo
use bfo.Providers.Echo.{echo_client, zero_batch}
use bfo.Tests.Capacity.{state_a, small_task, state_a_takes}

-- The outside world is the one stored state.
abbrev pub state_rt : Runtime ResourceInstanceState
state_rt = record {
  now = λ w. (7, w);
  unique_id = λ w. ("new-id", w);
  range_keys = λ ks w. (ks, w);
}

abbrev pub state_pool : Resources.Service ResourceInstanceState
state_pool = record {
  config = [];
  repository = record {
    get_resource_instance_state = λ key w. (ok (some w), w);
    put_resource_instance_state = λ state w. (ok tt, state);
  };
  providers = [];
  resources = [];
  resource_configs = [];
}

abbrev empty_answer : Response
empty_answer = record { status_code = 200; body = []; read_error = none }

abbrev state_net : Net ResourceInstanceState (Unit {0})
state_net = record {
  request_error = λ method url. none;
  do_request = λ r. pure empty_answer;
  text_of = λ b. "";
  new_writer = λ w. (tt, w);
  write_field = λ name value writer. ok tt;
  create_form_file = λ name file writer. ok tt;
  copy = λ content writer. ok tt;
  close = λ writer. ok tt;
  written = λ writer. [];
  form_data_content_type = λ writer. "multipart/form-data";
  marshal_batch_request = λ r. ok [];
  decode_file = λ r. fail (plain "no file");
  decode_batch = λ r. ok zero_batch;
  decode_list = λ r. fail (plain "no list");
  query_values = λ params. ok "";
}

abbrev booked_a : ResourceInstanceState
booked_a = book small_task 7 state_a

echoed :
    dispatch_task state_rt state_pool "gpu" (echo_client state_net) small_task state_a
    ≡ (ok zero_batch, booked_a)
unfolding dispatch_task create_batch settle_batch echo_client Echo.create_batch Echo.new_request
    Echo.send
echoed = refl

dispatch_task-Moves_example :
    Moves state_a
      (chosen small_task)
      (dispatch_task state_rt state_pool "gpu" (echo_client state_net) small_task state_a).1
      (ending small_task
        (dispatch_task state_rt state_pool "gpu" (echo_client state_net) small_task state_a).0)
unfolding echo_client Echo.create_batch Echo.new_request Echo.send
dispatch_task-Moves_example =
    dispatch_task-Moves state_rt state_pool "gpu" (echo_client state_net) (λ w. w) (λ w. inl refl)
      (λ w. refl) (λ state w. inl (refl, refl)) (λ w. refl) (λ request w. refl) small_task state_a
      (λ e. ground (arith, echoed))

one_turn : Moves state_a (seeking small_task) booked_a (accepted small_task)
one_turn = go (go (go (go stay (choose state_a_takes)) read) (store 7)) accept

InTurn-Fits_example : Fits booked_a
InTurn-Fits_example =
    InTurn-Fits (turn none_left one_turn) (record { limit = omega arith; within = omega arith })

reached :
    Reach
      (record { stored = state_a; workers = holding small_task state_a ∷ [] })
      (record { stored = booked_a; workers = booked small_task booked_a ∷ [] })
reached = later here (step [] [] (store 7))

Reach-HasLimits_example :
    HasLimits
      (limits state_a)
      (record { stored = booked_a; workers = booked small_task booked_a ∷ [] })
Reach-HasLimits_example = Reach-HasLimits reached (record { stored = refl; held = (refl, tt) })

overbooked_example :
    (u : System) × Reach
      (record { stored = state_a; workers = map seeking (small_task ∷ small_task ∷ []) })
      u
    × (u.workers ≡ map accepted (small_task ∷ small_task ∷ []))
    × (u.stored.active_batches ≡ add64 state_a.active_batches 1)
overbooked_example =
    overbooked small_task (small_task ∷ []) state_a 7 (state_a_takes, (state_a_takes, tt))

abbrev full : ResourceInstanceState
full = record state_a { active_batches = 8 }

-- The search of one worker has found nothing; another one is still seeking.
given_up :
    Reach
      (record { stored = full; workers = seeking small_task ∷ seeking small_task ∷ [] })
      (record { stored = full; workers = seeking small_task ∷ rejected small_task ∷ [] })
unfolding can_take gt64 ge64 add64
given_up = later here (step (seeking small_task ∷ []) [] (turned_away refl))

Reach-full_example :
    Stuck
      (record { stored = full; workers = seeking small_task ∷ seeking small_task ∷ [] })
      (record { stored = full; workers = seeking small_task ∷ rejected small_task ∷ [] })
unfolding ge64
Reach-full_example = Reach-full given_up refl (tt, (tt, tt))

-- A worker that has started its first store after another's batch was created.
stopped : Moves booked_a (seeking small_task) booked_a (holding small_task booked_a)
unfolding can_take gt64 ge64 add64 book
stopped = go (go stay (choose refl)) read

Turns-Balances_example :
    (ts : List Task) × OnBooks (holding small_task booked_a ∷ accepted small_task ∷ []) ts
    × Balances state_a ts booked_a
Turns-Balances_example =
    Turns-Balances (next_turn (next_turn no_turns one_turn) stopped)
      (record { batches = omega arith; load = omega arith })
