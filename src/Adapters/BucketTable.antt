-- ===== src/Adapters/BucketTable.antt =====
-- pkg/api/adapters/repository/repository_task_buckets.go over the store: the buckets as a map from
-- ids, and their listing, which has no order.
use mathlib.Core.List.{map}
use mathlib.Core.Option.{map as option_map}
use bfo.Common.{
  ◌≡◌, refl, sym, ap, ◌∙◌, String, Option, none, some, List, [], ◌∷◌, arith, ok, Io, pure, ◌>>=◌,
  ◌>>◌, if◌then◌else◌, str_eq,
}
use bfo.Tasks.Types.{TaskBucket}
use bfo.Adapters.Listing.{
  to_list, under, bucket_id, IsBucket, IsBucket-to_list, All-under, as_buckets, under-map,
  map-to_list,
}
use bfo.Adapters.DynamoDbStore.{get_item, upsert_item, delete_item, list_items}
use bfo.Adapters.Repository.{
  Repository, get_task_bucket, upsert_task_bucket, delete_task_bucket, list_task_buckets,
}

-- The calls of the repository on buckets.
pub data Command : Type 0 where
  get : String → Command
  put : TaskBucket → Command
  delete : String → Command
  list_all : Command

pub data Answer : Type 0 where
  done : Answer
  found : Option TaskBucket → Answer
  listed : List TaskBucket → Answer

abbrev pub Buckets : Type 0
Buckets = String → Option TaskBucket

abbrev pub change : Command → Buckets → Buckets
change (get _) m id = m id
change (put bucket) m id = if str_eq id bucket.id then some bucket else m id
change (delete gone) m id = if str_eq id gone then none else m id
change list_all m id = m id

-- The buckets of the map, each of them once, in any order.
abbrev pub Lists : Buckets → List TaskBucket → Type 0
Lists m buckets = (id : String) → under bucket_id id buckets ≡ to_list (m id)

-- What a call may answer on a map.
abbrev pub MayAnswer : Command → Buckets → Answer → Type 0
MayAnswer (get id) m a = a ≡ found (m id)
MayAnswer (put _) m a = a ≡ done
MayAnswer (delete _) m a = a ≡ done
MayAnswer list_all m a = (buckets : List TaskBucket) × (a ≡ listed buckets) × Lists m buckets

-- A run of calls on a map, with the answers and the map at its end.
pub data Run (m' : Buckets) : Buckets → List Command → List Answer → Type 0 where
  end : Run m' m' [] []
  next :
      {m : Buckets} {c : Command} {a : Answer} {cs : List Command} {answers : List Answer}
      → MayAnswer c m a
      → Run m' (change c m) cs answers
      → Run m' m (c ∷ cs) (a ∷ answers)

module _ {W Item : Type 0} (r : Repository W Item) where
  abbrev pub call : Command → Io W Answer
  call (get id) = get_task_bucket r id >>= λ b. pure (found b)
  call (put bucket) = upsert_task_bucket r bucket >> pure done
  call (delete id) = delete_task_bucket r id >> pure done
  call list_all = list_task_buckets r >>= λ bs. pure (listed bs)

  abbrev pub calls : List Command → Io W (List Answer)
  calls [] = pure []
  calls (c ∷ cs) = do a ← call c; rest ← calls cs; pure (a ∷ rest)

module _ {W Item : Type 0} (r : Repository W Item) (view : W → String → Option Item)
    (item_of : TaskBucket → Item) (id_of : Item → String)
    (marshals : (b : TaskBucket) → r.buckets.marshal_map b ≡ ok (item_of b))
    (unmarshals : (b : TaskBucket) → r.buckets.unmarshal_map (item_of b) ≡ ok b)
    (unmarshals_list : (bs : List TaskBucket) → r.buckets.unmarshal_list (map item_of bs) ≡ ok bs)
    (ids : (b : TaskBucket) → id_of (item_of b) ≡ b.id)
    (reads : (w : W) (id : String) → (r.store.get_item "task_buckets" "id" id w).0 ≡ ok (view w id))
    (reading : (w : W) (id other : String)
      → view (r.store.get_item "task_buckets" "id" id w).1 other ≡ view w other)
    (puts : (w : W) (item : Item) → (r.store.put_item "task_buckets" item w).0 ≡ ok tt)
    (putting : (w : W) (item : Item) (other : String)
      → view (r.store.put_item "task_buckets" item w).1 other
        ≡ (if str_eq other (id_of item) then some item else view w other))
    (deletes : (w : W) (id : String) → (r.store.delete_item "task_buckets" "id" id w).0 ≡ ok tt)
    (deleting : (w : W) (id other : String)
      → view (r.store.delete_item "task_buckets" "id" id w).1 other
        ≡ (if str_eq other id then none else view w other))
    (scans : (w : W)
      → (items : List Item) × ((r.store.scan "task_buckets" w).0 ≡ ok items)
        × ((id : String) → under id_of id items ≡ to_list (view w id)))
    (scanning : (w : W) (other : String)
      → view (r.store.scan "task_buckets" w).1 other ≡ view w other) where
  abbrev Shows : W → Buckets → Type 0
  Shows w m = (id : String) → view w id ≡ option_map item_of (m id)

  item_of-injective : (b c : TaskBucket) → item_of b ≡ item_of c → b ≡ c
  item_of-injective b c same = ground (arith, unmarshals b, unmarshals c, same)

  scan-Lists :
      (w : W) (m : Buckets)
      → Shows w m
      → (bs : List TaskBucket) × ((r.store.scan "task_buckets" w).0 ≡ ok (map item_of bs))
        × Lists m bs
  scan-Lists w m shows =
      let (items, scanned, shown) = scans w in
      let (bs, same) = as_buckets item_of id_of items (
        All-under item_of id_of (IsBucket item_of id_of) items
          (λ id. rw (shown id, shows id) (IsBucket-to_list item_of id_of (m id)))) in
      (
        bs,
        rw (sym same) scanned,
        λ id. map-to_list item_of id_of item_of-injective (under bucket_id id bs) (m id) (
            sym (under-map item_of id_of ids id bs)
            ∙ ap (under id_of id) (sym same)
            ∙ shown id
            ∙ ap to_list (shows id)),
      )

  list_all-answer :
      (w : W) (m : Buckets)
      → Shows w m
      → (bs : List TaskBucket) × ((list_task_buckets r w).0 ≡ ok bs) × Lists m bs
  unfolding list_task_buckets list_items
  list_all-answer w m shows =
      let (bs, scanned, lists) = scan-Lists w m shows in
      (bs, ground (arith, scanned, unmarshals_list bs), lists)

  call-answer :
      (c : Command) (w : W) (m : Buckets)
      → Shows w m
      → (a : Answer) × ((call r c w).0 ≡ ok a) × MayAnswer c m a
  unfolding get_task_bucket upsert_task_bucket delete_task_bucket get_item upsert_item delete_item
  call-answer (get id) w m shows =
      (found (m id), grind (arith, reads w id, shows id, unmarshals), refl)
  call-answer (put bucket) w m shows = (done, grind (arith, marshals, puts), refl)
  call-answer (delete id) w m shows = (done, grind (arith, deletes), refl)
  call-answer list_all w m shows =
      let (bs, answered, lists) = list_all-answer w m shows in
      (listed bs, ground (arith, answered), (bs, refl, lists))

  list_all-change : (w : W) (other : String) → view (call r list_all w).1 other ≡ view w other
  unfolding list_task_buckets list_items
  list_all-change w other = grind (arith, scanning w other)

  call-change : (c : Command) (w : W) (m : Buckets) → Shows w m → Shows (call r c w).1 (change c m)
  unfolding get_task_bucket upsert_task_bucket delete_task_bucket get_item upsert_item delete_item
  call-change (get id) w m shows other =
      grind (arith, reads w id, reading w id other, shows other, unmarshals)
  call-change (put bucket) w m shows other =
      grind
        (arith, marshals bucket, puts, putting w (item_of bucket) other, ids bucket, shows other)
  call-change (delete id) w m shows other = grind (arith, deletes, deleting w id other, shows other)
  call-change list_all w m shows other = list_all-change w other ∙ shows other

  -- The calls of the repository on task buckets do what they do on a map from ids to buckets
  -- whose listing has no order: `view` reads the items of the table out of the outside world;
  -- the store reads, puts, deletes and scans items as `view` says, without errors and a scan in
  -- one answer, and buckets come back from their items, with their ids. Then, from a world that
  -- shows the map `m`, any sequence of get, put, delete and list succeeds, with the answers of
  -- a run on `m`, in which a listing has each bucket of the map once, and it leaves a world
  -- that shows the map at the end of the run.
  pub calls-Run :
      (cs : List Command) (w : W) (m : Buckets)
      → ((id : String) → view w id ≡ option_map item_of (m id))
      → (answers : List Answer) × (m' : Buckets) × ((calls r cs w).0 ≡ ok answers)
        × Run m' m cs answers
        × ((id : String) → view (calls r cs w).1 id ≡ option_map item_of (m' id))
  calls-Run [] w m shows = ([], m, refl, end, shows)
  calls-Run (c ∷ cs) w m shows =
      let (a, answered, may) = call-answer c w m shows in
      let (answers, m', rest, run, left) =
        calls-Run cs (call r c w).1 (change c m) (call-change c w m shows) in
      (
        a ∷ answers,
        m',
        ground (arith, answered, rest),
        next may run,
        λ id. ground (arith, answered, rest, left id),
      )
