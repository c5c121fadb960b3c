-- ===== src/Resources/Books.antt =====
-- pkg/api/business/resources/service.go: the counters of a resource as sums over tasks.
use bfo.Common.{◌≡◌, refl, List, [], ◌∷◌, ◌++◌, Int64, add64, add64-lt, IsWord, ap, sym}
use bfo.Tasks.Types.{Task}
use bfo.Resources.Types.{ResourceInstanceState}
use bfo.Resources.Service.{token_need}

-- The counters after the tasks of the books, one by one, in 64 bits.
abbrev pub batches_after : Int64 → List Task → Int64
batches_after a [] = a
batches_after a (t ∷ ts) = add64 (batches_after a ts) 1

abbrev pub load_after : Int64 → List Task → Int64
load_after a [] = a
load_after a (t ∷ ts) = add64 (load_after a ts) (token_need t)

-- The counters of `m` are those of `m0` with these tasks on the books.
pub record Balances (m0 : ResourceInstanceState) (ts : List Task) (m : ResourceInstanceState)
    : Type 0 where
  pub batches : m.active_batches ≡ batches_after m0.active_batches ts
  pub load : m.current_token_load ≡ load_after m0.current_token_load ts

-- The counters are words.
pub record IsCounted (m : ResourceInstanceState) : Type 0 where
  pub batches : IsWord m.active_batches
  pub load : IsWord m.current_token_load

batches_after-append :
    (a : Int64) (added ts : List Task)
    → batches_after a (added ++ ts) ≡ batches_after (batches_after a ts) added
batches_after-append a [] ts = refl
batches_after-append a (t ∷ added) ts = ap (λ x. add64 x 1) (batches_after-append a added ts)

load_after-append :
    (a : Int64) (added ts : List Task)
    → load_after a (added ++ ts) ≡ load_after (load_after a ts) added
load_after-append a [] ts = refl
load_after-append a (t ∷ added) ts = ap (λ x. add64 x (token_need t)) (load_after-append a added ts)

pub Balances-append :
    (m0 m1 m2 : ResourceInstanceState) (added ts : List Task)
    → Balances m0 ts m1
    → Balances m1 added m2
    → Balances m0 (added ++ ts) m2
Balances-append m0 m1 m2 added ts first second = record {
  batches = rw (batches_after-append m0.active_batches added ts, sym first.batches) second.batches;
  load = rw (load_after-append m0.current_token_load added ts, sym first.load) second.load;
}

batches_after-IsWord : (a : Int64) (ts : List Task) → IsWord a → IsWord (batches_after a ts)
batches_after-IsWord a [] h = h
batches_after-IsWord a (t ∷ ts) h = add64-lt (batches_after a ts) 1

load_after-IsWord : (a : Int64) (ts : List Task) → IsWord a → IsWord (load_after a ts)
load_after-IsWord a [] h = h
load_after-IsWord a (t ∷ ts) h = add64-lt (load_after a ts) (token_need t)

pub Balances-IsCounted :
    (m0 m : ResourceInstanceState) (ts : List Task) → IsCounted m0 → Balances m0 ts m → IsCounted m
Balances-IsCounted m0 m ts words h = record {
  batches = rw h.batches (batches_after-IsWord m0.active_batches ts words.batches);
  load = rw h.load (load_after-IsWord m0.current_token_load ts words.load);
}
