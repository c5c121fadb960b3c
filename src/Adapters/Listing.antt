-- ===== src/Adapters/Listing.antt =====
-- pkg/api/adapters/repository/repository_task_buckets.go, `ListTaskBuckets`: the items of a
-- listing, by their ids.
use mathlib.Core.List.{map}
use mathlib.Core.Option.{map as option_map}
use bfo.Common.{
  ◌≡◌, refl, inl, inr, All, Bool-cases, eq_iff, String, Option, none, some, List, [], ◌∷◌, arith,
  if◌then◌else◌, str_eq,
}
use bfo.Tasks.Types.{TaskBucket}

abbrev pub to_list : {A : Type 0} → Option A → List A
to_list none = []
to_list (some a) = a ∷ []

-- The entries of a list that have this id.
unfoldable pub under : {A : Type 0} → (A → String) → String → List A → List A
under key id [] = []
under key id (x ∷ xs) = let rest = under key id xs in if str_eq (key x) id then x ∷ rest else rest

abbrev pub bucket_id : TaskBucket → String
bucket_id bucket = bucket.id

-- The items of a listing are those of buckets that are a listing.
module _ {Item : Type 0} (item_of : TaskBucket → Item) (id_of : Item → String) where
  abbrev pub IsBucket : Item → Type 0
  IsBucket item = (b : TaskBucket) × (item ≡ item_of b)

  pub IsBucket-to_list : (o : Option TaskBucket) → All IsBucket (to_list (option_map item_of o))
  IsBucket-to_list none = tt
  IsBucket-to_list (some b) = ((b, refl), tt)

  All-under_tail :
      (P : Item → Type 0) (id : String) (item : Item) (items : List Item)
      → All P (under id_of id (item ∷ items))
      → All P (under id_of id items)
  unfolding under
  All-under_tail P id item items h = elim (Bool-cases (str_eq (id_of item) id)) [
    | inl same ↦ (rw same at h).1
    | inr other ↦ rw other at h
  ]

  All-under_head :
      (P : Item → Type 0) (item : Item) (items : List Item)
      → All P (under id_of (id_of item) (item ∷ items))
      → P item
  unfolding under
  All-under_head P item items h = (rw ((eq_iff (id_of item) (id_of item)).1 refl) at h).0

  pub All-under :
      (P : Item → Type 0) (items : List Item)
      → ((id : String) → All P (under id_of id items))
      → All P items
  All-under P [] h = tt
  All-under P (item ∷ items) h = (
    All-under_head P item items (h (id_of item)),
    All-under P items (λ id. All-under_tail P id item items (h id)),
  )

  pub as_buckets :
      (items : List Item) → All IsBucket items → (bs : List TaskBucket) × (items ≡ map item_of bs)
  as_buckets [] h = ([], refl)
  as_buckets (item ∷ items) ((b, same), h) = let (bs, rest) = as_buckets items h in (b ∷ bs, cc)

  pub under-map :
      ((b : TaskBucket) → id_of (item_of b) ≡ b.id)
      → (id : String) (bs : List TaskBucket)
      → under id_of id (map item_of bs) ≡ map item_of (under bucket_id id bs)
  unfolding under
  under-map ids id [] = refl
  under-map ids id (b ∷ bs) = ground (arith, ids b, under-map ids id bs)

  pub map-to_list :
      ((b c : TaskBucket) → item_of b ≡ item_of c → b ≡ c)
      → (bs : List TaskBucket) (o : Option TaskBucket)
      → map item_of bs ≡ to_list (option_map item_of o)
      → bs ≡ to_list o
  map-to_list injective [] none h = refl
  map-to_list injective [] (some b) h = cc
  map-to_list injective (b ∷ bs) none h = cc
  map-to_list injective (b ∷ []) (some c) h = ground (arith, injective b c)
  map-to_list injective (b ∷ b' ∷ bs) (some c) h = ground arith
