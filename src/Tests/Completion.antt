-- ===== src/Tests/Completion.antt =====
-- The theorems on a tick that does its work at concrete inputs.
use mathlib.Core.List.{Memᴰ}
use mathlib.Core.Path.{subst}
use mathlib.Core.Option.{some-injective}
use bfo.Common.{
  Io, Option, ◌⊎◌, inl, inr, ◌>>=◌, ◌≡◌, ◌≢◌, refl, sym, true, false, ok, none, some, String, Bool,
  List, [], ◌∷◌, arith, pure, lookup, gt64, ge64, add64, quot64, eq_iff, str_eq, if◌then◌else◌,
  Runtime,
}
use bfo.Tasks.Types.{Task, TaskWithReceipt}
use bfo.Tasks.Service.{Service, Reply, with_id, with_created_at}
use bfo.Tasks.Delivery.{Keeps, Keeps->>=}
use bfo.Resources.Types.{Provider, ResourceInstanceState}
use bfo.Resources.Service as Resources
use bfo.Resources.Service.{takes, with_estimate, can_take, find_from}
use bfo.Resources.Dispatch as Dispatch
use bfo.Resources.Dispatch.{try_process_task, dispatch_reply}
use bfo.AppContext.{report, AppContext, process_fn, tick}
use bfo.Resources.Capacity.{bind-holds}
use bfo.AppContext.Completion.{Creates, tick-dispatches}
use bfo.AppContext.Ticks.{tick-Keeps_message}
use bfo.Providers.Echo.{zero_batch}
use bfo.Tests.{service_a}
use bfo.Tests.Capacity.{state_a, small_task, reads}

-- Is the message "r1" in the queue, what is stored for the resource "gpu", and is there a batch?
record Site : Type 0 where
  held : Bool
  stored : ResourceInstanceState
  created : Bool

abbrev site : Site
site = record { held = true; stored = state_a; created = false }

abbrev site_rt : Runtime Site
site_rt = record { now = λ w. (7, w); unique_id = λ w. ("new-id", w); range_keys = λ ks w. (ks, w) }

abbrev creating : Provider Site
creating = record {
  create_file = λ name content purpose. pure none;
  create_batch = λ request w. (ok (some zero_batch), record w { created = true });
  retrieve_batch = λ id. pure none;
  cancel_batch = λ id. pure none;
  list_batches = λ params. pure none;
  get_file_content = λ id. pure [];
}

-- What is put is what is read next.
abbrev site_pool : Resources.Service Site
site_pool = record {
  config = [];
  repository = record {
    get_resource_instance_state =
        λ key w. (ok (if str_eq key "gpu" then some w.stored else none), w);
    put_resource_instance_state = λ state w. (ok tt, record w { stored = state });
  };
  providers = [];
  resources = ("gpu", some creating) ∷ [];
  resource_configs = [];
}

abbrev site_tasks : List TaskWithReceipt → Service Site
site_tasks records = record {
  config = service_a.config;
  context = some "url";
  repository = record {
    get_task_status = λ id. pure none;
    put_task_status = λ status. pure tt;
    update_task_status = λ id m. pure tt;
    enqueue_task = λ url t. pure tt;
    pick_task_from_queue = λ url. pure records;
    delete_task_from_queue =
        λ url receipt w. (ok tt, if str_eq receipt "r1" then record w { held = false } else w);
    upsert_task_bucket = λ bucket. pure tt;
  };
}

abbrev context_of : List TaskWithReceipt → AppContext Site
context_of records = record { tasks = site_tasks records; resources = some site_pool }

abbrev IsStored : Site → Type 0
IsStored w = w.stored ≡ state_a

only_gpu :
    (key : String)
    → Memᴰ key ("gpu" ∷ [])
    → (provider : Provider Site) × (lookup key site_pool.resources ≡ some (some provider))
      × Creates (λ w. w.created ≡ true) provider
unfolding lookup
only_gpu key (Memᴰ.head same) =
    (creating, ground (arith, same, eq_iff key "gpu"), λ request w. ((zero_batch, refl), refl))
only_gpu key (Memᴰ.tail m) = elim m [ ]

small_task_fits : takes (with_estimate small_task) (reads "gpu") ≡ true
unfolding can_take gt64 add64 with_estimate quot64 ge64
small_task_fits = refl

abbrev one_record : List TaskWithReceipt
one_record = (record { task = some small_task; receipt_handle = "r1" }) ∷ []

tick-dispatches_example :
    let end = (tick site_rt (context_of one_record) site).1 in
    (end.held ≡ false) × (end.created ≡ true)
tick-dispatches_example =
    tick-dispatches (λ w. w.created ≡ true) site_rt (context_of one_record) site_pool refl reads
      IsStored (λ key w q. rw q refl) (λ w q. q) (λ w q. q) (λ ks w q. q) (λ id m w q. q)
      (λ state w. refl) (λ key w m. only_gpu key m) small_task "gpu" (λ w. Memᴰ.head refl)
      small_task_fits (λ w. w.held ≡ false) "url" "r1" site refl refl refl (λ w q. q) (λ w q. q)
      (λ id m w q. q) (λ id m w q. q) (λ id m w. ground arith) (λ w. ground arith)
      (λ w. ground (arith, eq_iff "r1" "r1")) (λ w q. ground arith)

-- A task that needs more than a batch may hold.
abbrev big_task : Task
big_task = record small_task { id = "big"; max_tokens = 5000; created_at = 4 }

-- The second one is dispatched.
abbrev two_records : List TaskWithReceipt
two_records =
    (record { task = some big_task; receipt_handle = "r1" })
    ∷ (record { task = some small_task; receipt_handle = "r2" })
    ∷ []

-- The message is there, and what is stored for the resource has the limits of `state_a`.
abbrev IsHeld : Site → Type 0
IsHeld w = (w.held ≡ true) × (w.stored.max_tokens_per_batch ≡ 1000)

big_task_fails :
    (w : Site) (reply : Reply)
    → IsHeld w
    → (try_process_task site_rt site_pool big_task w).0 ≡ ok reply
    → reply.error ≢ none
unfolding try_process_task Resources.find_best_available_resource dispatch_reply find_from
    Resources.read_state can_take gt64 add64 with_estimate quot64 ge64
big_task_fails w reply h e = ground (arith, h.1)

with_id-IsHeld : (task : Task) → Keeps IsHeld (with_id site_rt task)
unfolding with_id
with_id-IsHeld task w h = ground arith

with_created_at-IsHeld : (task : Task) → Keeps IsHeld (with_created_at site_rt task)
unfolding with_created_at
with_created_at-IsHeld task w h = ground arith

find_best-IsHeld :
    (task : Task) → Keeps IsHeld (Resources.find_best_available_resource site_rt site_pool task)
unfolding Resources.find_best_available_resource find_from Resources.read_state
find_best-IsHeld task w h = ground arith

dispatch_task-IsHeld :
    (key : String) (task : Task)
    → Keeps IsHeld (Dispatch.dispatch_task site_rt site_pool key creating task)
unfolding Dispatch.dispatch_task Dispatch.create_batch Dispatch.settle_batch Dispatch.book
dispatch_task-IsHeld key task w h = ground arith

find_best-creating :
    (task : Task) (w : Site) (r : Task × Option (Provider Site × String))
    → (Resources.find_best_available_resource site_rt site_pool task w).0 ≡ ok r
    → (r.1 ≡ none) ⊎ (r.1 ≡ some (creating, "gpu"))
unfolding Resources.find_best_available_resource find_from Resources.read_state lookup
find_best-creating task w r e = ground arith

dispatch_reply-IsHeld :
    (r : Task × Option (Provider Site × String)) (w : Site)
    → (r.1 ≡ none) ⊎ (r.1 ≡ some (creating, "gpu"))
    → IsHeld w
    → IsHeld (dispatch_reply site_rt site_pool r.0 r.1 w).1
unfolding dispatch_reply
dispatch_reply-IsHeld r w (inl e) h = rw e h
dispatch_reply-IsHeld r w (inr e) h = rw e (grind (arith, dispatch_task-IsHeld "gpu" r.0 w h))

-- The rest of `TryProcessTask`.
abbrev after_filled : Task → Io Site Reply
after_filled task = Resources.find_best_available_resource site_rt site_pool task >>= λ found.
    dispatch_reply site_rt site_pool found.0 found.1

after_filled-IsHeld : (task : Task) → Keeps IsHeld (after_filled task)
after_filled-IsHeld task w h =
    let v = (Resources.find_best_available_resource site_rt site_pool task w).1 in
    let h' = find_best-IsHeld task w h in
    bind-holds IsHeld (Resources.find_best_available_resource site_rt site_pool task)
      (λ found. dispatch_reply site_rt site_pool found.0 found.1) w h'
      (λ r e. dispatch_reply-IsHeld r v (find_best-creating task w r e) h')

try_process_task-IsHeld : (task : Task) → Keeps IsHeld (try_process_task site_rt site_pool task)
unfolding try_process_task
try_process_task-IsHeld task =
    Keeps->>= IsHeld (with_id site_rt task)
      (λ t. with_created_at site_rt t >>= λ t'. after_filled t') (with_id-IsHeld task)
      (λ t.
        Keeps->>= IsHeld (with_created_at site_rt t) (λ t'. after_filled t')
          (with_created_at-IsHeld t) after_filled-IsHeld)

process_fn-IsHeld : (task : Task) → Keeps IsHeld (process_fn site_rt (context_of two_records) task)
unfolding process_fn
process_fn-IsHeld task =
    Keeps->>= IsHeld (try_process_task site_rt site_pool task) (λ reply. pure (report reply))
      (try_process_task-IsHeld task) (λ reply w h. h)

tick-Keeps_message_example : IsHeld (tick site_rt (context_of two_records) site).1
tick-Keeps_message_example =
    tick-Keeps_message IsHeld site_rt (context_of two_records) "r1" "url" two_records site refl refl
      (refl, refl) (λ w p. p) (λ id m w p. p) process_fn-IsHeld
      (λ other differs w p. (ground (arith, eq_iff other "r1", p.0), ground (arith, p.1)))
      (
        λ same task s v reply p there set replied. big_task_fails v reply p (
            subst (λ s. (try_process_task site_rt s big_task v).0 ≡ ok reply)
              (sym (some-injective _ _ set))
              (subst (λ t. (try_process_task site_rt s t v).0 ≡ ok reply)
                (sym (some-injective _ _ there)) replied)),
        (λ same task s v reply p there set replied. absurd (ground (arith, eq_iff "r2" "r1")), tt),
      )
