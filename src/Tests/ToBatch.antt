-- ===== src/Tests/ToBatch.antt =====
-- The way of a task from its request to the worker and to its batch, at concrete requests.
use mathlib.Core.List.{Memᴰ}
use bfo.Common.{
  ◌≡◌, refl, sym, ap, true, false, ok, none, some, String, List, [], ◌∷◌, ◌++◌, arith, pure, lookup,
  gt64, ge64, add64, quot64, eq_iff, Bool, Runtime, str_eq, if◌then◌else◌, ◌||◌, ◌<>◌,
}
use bfo.Tasks.Types.{Task}
use bfo.Tasks.Service as Tasks
use bfo.Tasks.Service.{Service, fill_task, submit_task}
use bfo.Resources.Types.{Provider, ResourceInstanceState}
use bfo.Resources.Service as Resources
use bfo.Resources.Service.{takes, with_estimate, can_take}
use bfo.Providers.Echo.{zero_batch}
use bfo.Adapters.SqsQueue as Queue
use bfo.Adapters.SqsQueue.{RawMessage}
use bfo.Adapters.DynamoDbStore as Store
use bfo.Adapters.Repository as Repo
use bfo.Adapters.Repository.{Repository, for_tasks, pick_task_from_queue, delete_task_from_queue}
use bfo.Adapters.RoundTrip.{IsReadable}
use bfo.AppContext.{tick}
use bfo.AppContext.Completion.{Creates}
use bfo.Http.{ok_result, put_task}
use bfo.Http.EndToEnd.{IsFor, IsPicked, put_task-IsPicked}
use bfo.Http.ToBatch.{put_task-tick}
use bfo.Tests.{service_a}
use bfo.Tests.Capacity.{state_a, small_task, reads}
use bfo.Tests.Requests.{decoder_a, request_a}
use bfo.Tests.Intake.{repository_b, no_codec}

-- The outside world: the bodies in the queue, what is stored for the resource "gpu", and whether
-- there is a batch.
record Site : Type 0 where
  queue : List String
  stored : ResourceInstanceState
  created : Bool

abbrev site : List String → Site
site bodies = record { queue = bodies; stored = state_a; created = false }

abbrev site_rt : Runtime Site
site_rt = record { now = λ w. (7, w); unique_id = λ w. ("new-id", w); range_keys = λ ks w. (ks, w) }

abbrev receipt_of : String → String
receipt_of body = "h-" <> body

abbrev message : String → RawMessage
message body = record { body = some body; receipt_handle = some (receipt_of body) }

abbrev messages : List String → List RawMessage
messages [] = []
messages (body ∷ bodies) = message body ∷ messages bodies

abbrev without : String → List String → List String
without receipt [] = []
without receipt (body ∷ bodies) =
    let rest = without receipt bodies in
    if str_eq (receipt_of body) receipt then rest else body ∷ rest

-- Is there a message with this receipt?
abbrev has : String → List String → Bool
has receipt [] = false
has receipt (body ∷ bodies) = str_eq (receipt_of body) receipt || has receipt bodies

has-without :
    (receipt : String) (bodies : List String) → has receipt (without receipt bodies) ≡ false
has-without receipt [] = refl
has-without receipt (body ∷ bodies) = ground (arith, has-without receipt bodies)

abbrev task_of : String → Task
task_of id = record small_task { id = id; bucket_id = "b2" }

-- A task is written as its id.
abbrev site_repository : Repository Site (Unit {0})
site_repository = record {
  store = record {
    describe_table = λ table. pure tt;
    create_table = λ table key. pure tt;
    wait_table_exists = λ table. pure tt;
    scan = λ table. pure [];
    get_item = λ table field value. pure none;
    put_item = λ table item. pure tt;
    delete_item = λ table field value. pure tt;
  };
  queue_config = repository_b.queue_config;
  queue = record {
    get_queue_url = λ name. pure (some "url");
    list_queues = pure [];
    create_queue = λ name. pure (some "url");
    send_message = λ url text w. (ok (some "id"), record w { queue = w.queue ++ text ∷ [] });
    receive_message = λ url most wait visible w. (ok (messages w.queue), w);
    delete_message = λ url receipt w. (ok tt, record w { queue = without receipt w.queue });
  };
  statuses = no_codec;
  buckets = no_codec;
  states = no_codec;
  json = record { marshal = λ t. ok t.id; unmarshal = λ body. ok (some (task_of body)) };
}

abbrev InQueue : String → Site → Type 0
InQueue body w = Memᴰ body w.queue

sent : (body : String) (bodies : List String) → Memᴰ body (bodies ++ body ∷ [])
sent body [] = Memᴰ.head refl
sent body (b ∷ bodies) = Memᴰ.tail (sent body bodies)

task_of-IsFor : (t : Task) → IsFor request_a t → IsFor request_a (task_of t.id)
task_of-IsFor t h = record { of_bucket = refl; of_id = h.of_id }

abbrev site_tasks : Service Site
site_tasks = record {
  config = service_a.config;
  context = some "url";
  repository = for_tasks site_repository;
}

abbrev after_request : List String → Site
after_request bodies = (put_task decoder_a site_tasks site_rt request_a (site bodies)).1

accepted :
    (bodies : List String)
    → (put_task decoder_a site_tasks site_rt request_a (site bodies)).0 ≡ ok ok_result
unfolding put_task Tasks.dispatch_task fill_task submit_task for_tasks Repo.put_task_status
    Store.upsert_item Repo.enqueue_task Queue.send_message
accepted bodies = refl

-- The body of the message is the id of the path.
queued : (bodies : List String) → (after_request bodies).queue ≡ bodies ++ "x" ∷ []
unfolding put_task Tasks.dispatch_task fill_task submit_task for_tasks Repo.put_task_status
    Store.upsert_item Repo.enqueue_task Queue.send_message
queued bodies = refl

received_body :
    (body : String) (bodies : List String)
    → Memᴰ body bodies
    → (handle : String) × Memᴰ
        (record { body = some body; receipt_handle = some handle })
        (messages bodies)
received_body body [] there = elim there [ ]
received_body body (b ∷ bodies) (Memᴰ.head same) = (
  receipt_of b,
  Memᴰ.head (ap (λ x. record { body = some x; receipt_handle = some (receipt_of b) }) same),
)
received_body body (b ∷ bodies) (Memᴰ.tail there) =
    let (handle, m) = received_body body bodies there in (handle, Memᴰ.tail m)

readable : (body : String) → IsReadable site_repository.json (message body)
readable body = record {
  body = body;
  handle = receipt_of body;
  task = some (task_of body);
  has_body = refl;
  has_handle = refl;
  reads = refl;
}

-- Another message was in the queue before.
put_task-IsPicked_example : IsPicked site_repository "url" request_a (after_request ("old" ∷ []))
put_task-IsPicked_example =
    put_task-IsPicked site_repository "url" request_a (λ t. t.id) (λ t. task_of t.id) InQueue
      (λ t. refl) (λ t h. refl) task_of-IsFor (λ body id v done. sent body v.queue) decoder_a
      service_a.config site_rt (site ("old" ∷ [])) (after_request ("old" ∷ []))
      (messages ("old" ∷ "x" ∷ [])) (accepted ("old" ∷ []))
      (ap (λ bodies. ok (messages bodies)) (queued ("old" ∷ [])))
      (readable "old", (readable "x", tt))
      (λ body there. received_body body ("old" ∷ "x" ∷ []) (rw (sym (queued ("old" ∷ []))) there))

abbrev site_provider : Provider Site
site_provider = record {
  create_file = λ name content purpose. pure none;
  create_batch = λ request w. (ok (some zero_batch), record w { created = true });
  retrieve_batch = λ id. pure none;
  cancel_batch = λ id. pure none;
  list_batches = λ params. pure none;
  get_file_content = λ id. pure [];
}

-- What is put is what is read next.
abbrev site_pool : Resources.Service Site
site_pool = record {
  config = [];
  repository = record {
    get_resource_instance_state =
        λ key w. (ok (if str_eq key "gpu" then some w.stored else none), w);
    put_resource_instance_state = λ state w. (ok tt, record w { stored = state });
  };
  providers = [];
  resources = ("gpu", some site_provider) ∷ [];
  resource_configs = [];
}

only_gpu :
    (key : String)
    → Memᴰ key ("gpu" ∷ [])
    → (provider : Provider Site) × (lookup key site_pool.resources ≡ some (some provider))
      × Creates (λ w. w.created ≡ true) provider
unfolding lookup
only_gpu key (Memᴰ.head same) =
    (site_provider, ground (arith, same, eq_iff key "gpu"), λ request w. ((zero_batch, refl), refl))
only_gpu key (Memᴰ.tail m) = elim m [ ]

task_x_fits : takes (with_estimate (task_of "x")) (reads "gpu") ≡ true
unfolding can_take gt64 add64 with_estimate quot64 ge64
task_x_fits = refl

only_x : (body : String) → Memᴰ body ("x" ∷ []) → body ≡ "x"
only_x body (Memᴰ.head same) = same
only_x body (Memᴰ.tail there) = elim there [ ]

still_stored : (pick_task_from_queue site_repository "url" (after_request [])).1.stored ≡ state_a
unfolding put_task Tasks.dispatch_task fill_task submit_task for_tasks Repo.put_task_status
    Store.upsert_item Repo.enqueue_task Queue.send_message pick_task_from_queue
    Queue.receive_messages Queue.received
still_stored = refl

-- The message is gone after the request and the tick, and a batch was created.
put_task-tick_example :
    let end =
      (tick site_rt
        (record { tasks = site_tasks; resources = some site_pool })
        (after_request [])).1 in
    IsFor request_a (task_of "x") × (has "h-x" end.queue ≡ false) × (end.created ≡ true)
unfolding delete_task_from_queue Queue.delete_message
put_task-tick_example =
    put_task-tick site_repository "url" request_a (λ t. t.id) (λ t. task_of t.id) InQueue
      (λ t. refl) (λ t h. refl) task_of-IsFor (λ body id v done. sent body v.queue)
      (λ w. w.created ≡ true) site_rt site_pool reads (λ w. w.stored ≡ state_a)
      (λ key w q. rw q refl) (λ w q. q) (λ w q. q) (λ ks w q. q) (λ state w. refl)
      (λ key w m. only_gpu key m) "gpu" (λ w. Memᴰ.head refl) (λ w. has "h-x" w.queue ≡ false)
      decoder_a service_a.config (site []) (after_request []) "x" "h-x" (task_of "x") (accepted [])
      (ap (λ bodies. ok (messages bodies)) (queued []))
      (λ other there. only_x other (rw (sym (queued [])) there)) refl task_x_fits still_stored
      (λ w q. q) (λ w q. q) (λ w. ground arith) (λ w. has-without "h-x" w.queue) (λ w q. q)
