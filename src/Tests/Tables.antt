-- ===== src/Tests/Tables.antt =====
-- The theorem on the table of buckets at a concrete input: a table as a list of items, where the
-- first one under an id counts.
use mathlib.Core.List.{map}
use mathlib.Core.Option.{map as option_map}
use bfo.Common.{
  ◌≡◌, refl, ok, fail, none, some, Option, List, String, [], ◌∷◌, arith, plain, pure, if◌then◌else◌,
  str_eq, eq_iff,
}
use bfo.Tasks.Types.{TaskBucket}
use bfo.Adapters.DynamoDbStore as Store
use bfo.Adapters.DynamoDbStore.{get_item, upsert_item, delete_item, list_items}
use bfo.Adapters.Repository.{
  Repository, get_task_bucket, upsert_task_bucket, delete_task_bucket, list_task_buckets,
}
use bfo.Adapters.BucketTable.{
  Command, get, put, delete, list_all, Answer, Buckets, Run, calls, calls-Run,
}
use bfo.Adapters.Listing.{bucket_id, to_list, under}
use bfo.Tests.{bucket_a}
use bfo.Tests.Intake.{repository_b}

abbrev Table : Type 0
Table = List TaskBucket

first : Table → Buckets
first [] id = none
first (b ∷ bs) id = if str_eq b.id id then some b else first bs id

drop_id : String → Table → Table
drop_id id [] = []
drop_id id (b ∷ bs) = let rest = drop_id id bs in if str_eq b.id id then rest else b ∷ rest

scanned : Table → List TaskBucket
scanned [] = []
scanned (b ∷ bs) = b ∷ drop_id b.id (scanned bs)

first-drop_id :
    (bs : Table) (id other : String)
    → first (drop_id id bs) other ≡ (if str_eq other id then none else first bs other)
unfolding first drop_id
first-drop_id [] id other = ground arith
first-drop_id (b ∷ bs) id other =
    ground (arith, first-drop_id bs id other, eq_iff b.id id, eq_iff b.id other, eq_iff other id)

under-drop_id :
    (bs : Table) (gone id : String)
    → under bucket_id id (drop_id gone bs) ≡ (if str_eq gone id then [] else under bucket_id id bs)
unfolding under drop_id
under-drop_id [] gone id = ground arith
under-drop_id (b ∷ bs) gone id =
    ground (arith, under-drop_id bs gone id, eq_iff b.id gone, eq_iff b.id id, eq_iff gone id)

under-scanned : (bs : Table) (id : String) → under bucket_id id (scanned bs) ≡ to_list (first bs id)
unfolding under scanned first
under-scanned [] id = refl
under-scanned (b ∷ bs) id = ground (arith, under-drop_id (scanned bs) b.id id, under-scanned bs id)

abbrev same_item : {A : Type 0} → Store.Codec A A
same_item = record {
  marshal_map = λ a. ok a;
  unmarshal_map = λ item. ok item;
  unmarshal_list = λ items. ok items;
}

abbrev unread : {A : Type 0} → Store.Codec TaskBucket A
unread = record {
  marshal_map = λ a. fail (plain "no table");
  unmarshal_map = λ item. fail (plain "no table");
  unmarshal_list = λ items. fail (plain "no table");
}

abbrev table_repository : Repository Table TaskBucket
table_repository = record {
  store = record {
    describe_table = λ table. pure tt;
    create_table = λ table key. pure tt;
    wait_table_exists = λ table. pure tt;
    scan = λ table w. (ok (scanned w), w);
    get_item = λ table field id w. (ok (first w id), w);
    put_item = λ table item w. (ok tt, item ∷ w);
    delete_item = λ table field id w. (ok tt, drop_id id w);
  };
  queue_config = repository_b.queue_config;
  queue = record {
    get_queue_url = λ name. pure none;
    list_queues = pure [];
    create_queue = λ name. pure none;
    send_message = λ url body. pure none;
    receive_message = λ url most wait visible. pure [];
    delete_message = λ url receipt. pure tt;
  };
  statuses = unread;
  buckets = same_item;
  states = unread;
  json = repository_b.json;
}

first-cons :
    (bs : Table) (b : TaskBucket) (other : String)
    → first (b ∷ bs) other ≡ (if str_eq other b.id then some b else first bs other)
unfolding first
first-cons bs b other = ground (arith, eq_iff b.id other, eq_iff other b.id)

map_same : (bs : List TaskBucket) → map (λ b. b) bs ≡ bs
map_same [] = refl
map_same (b ∷ bs) = rw (map_same bs)

option_map_same : (o : Option TaskBucket) → option_map (λ b. b) o ≡ o
option_map_same none = refl
option_map_same (some b) = refl

abbrev bucket_c : TaskBucket
bucket_c = record bucket_a { id = "c" }

abbrev bucket_calls : List Command
bucket_calls = put bucket_a ∷ put bucket_c ∷ put bucket_a ∷ delete "c" ∷ get "b" ∷ list_all ∷ []

ran :
    (calls table_repository bucket_calls []).0
    ≡ ok (
        Answer.done
        ∷ Answer.done
        ∷ Answer.done
        ∷ Answer.done
        ∷ Answer.found (some bucket_a)
        ∷ Answer.listed (bucket_a ∷ [])
        ∷ [])
unfolding first drop_id scanned get_task_bucket upsert_task_bucket delete_task_bucket
    list_task_buckets get_item upsert_item delete_item list_items
ran = refl

calls-Run_example :
    (answers : List Answer) × (m' : Buckets) × ((calls table_repository bucket_calls []).0
      ≡ ok answers)
    × Run m' (λ id. none) bucket_calls answers
    × ((id : String)
        → first (calls table_repository bucket_calls []).1 id ≡ option_map (λ b. b) (m' id))
unfolding first
calls-Run_example =
    calls-Run table_repository first (λ b. b) bucket_id (λ b. refl) (λ b. refl)
      (λ bs. rw (map_same bs) refl) (λ b. refl) (λ w id. refl) (λ w id other. refl) (λ w item. refl)
      (λ w item other. first-cons w item other) (λ w id. refl)
      (λ w id other. first-drop_id w id other) (λ w. (scanned w, refl, under-scanned w))
      (λ w other. refl) bucket_calls [] (λ id. none) (λ id. refl)
