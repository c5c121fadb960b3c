-- ===== src/Resources/Limits.antt =====
-- pkg/api/business/resources/service.go: what of a resource's state no interleaving changes.
use bfo.Common.{◌≡◌, refl, List, [], ◌∷◌, ◌++◌, String, Int64, ℕ, All, ◌∙◌}
use bfo.Tasks.Types.{Task}
use bfo.Resources.Types.{ResourceInstanceState}
use bfo.Resources.Dispatch.{book, unbook}
use bfo.Resources.Workers.{
  Pc, seeking, chosen, holding, booked, refused, accepted, rejected, Move, choose, turned_away,
  unreadable, read, read_failed, store, store_failed, accept, refuse, roll_back, roll_back_failed,
  System, Step, step, Reach, here, later,
}

-- The identity and the limits of a resource: all but its counters, its time and its version.
pub record Limits : Type 0 where
  pub resource_instance_id : String
  pub provider_name : String
  pub state : List ℕ
  pub max_concurrent_batches : Int64
  pub tokens_per_minute : Int64
  pub max_tokens_per_batch : Int64

abbrev pub limits : ResourceInstanceState → Limits
limits m = record {
  resource_instance_id = m.resource_instance_id;
  provider_name = m.provider_name;
  state = m.state;
  max_concurrent_batches = m.max_concurrent_batches;
  tokens_per_minute = m.tokens_per_minute;
  max_tokens_per_batch = m.max_tokens_per_batch;
}

-- The state that a worker holds, if it holds one, has these limits.
abbrev pub Holds : Limits → Pc → Type 0
Holds l (holding t s) = limits s ≡ l
Holds l (booked t s) = limits s ≡ l
Holds l (refused t s) = limits s ≡ l
Holds l (seeking t) = Unit {0}
Holds l (chosen t) = Unit {0}
Holds l (accepted t) = Unit {0}
Holds l (rejected t) = Unit {0}

-- The stored state and every state that a worker holds have these limits.
pub record HasLimits (l : Limits) (s : System) : Type 0 where
  pub stored : limits s.stored ≡ l
  pub held : All (Holds l) s.workers

book-limits : (t : Task) (now : ℕ) (m : ResourceInstanceState) → limits (book t now m) ≡ limits m
unfolding book
book-limits t now m = refl

unbook-limits : (t : Task) (m : ResourceInstanceState) → limits (unbook t m) ≡ limits m
unfolding unbook
unbook-limits t m = refl

Move-Holds :
    {l : Limits} {m m' : ResourceInstanceState} {p p' : Pc}
    → Move m p m' p'
    → limits m ≡ l
    → Holds l p
    → (limits m' ≡ l) × Holds l p'
Move-Holds (choose takes) h k = (h, tt)
Move-Holds (turned_away full) h k = (h, tt)
Move-Holds unreadable h k = (h, tt)
Move-Holds read h k = (h, h)
Move-Holds read_failed h k = (h, tt)
Move-Holds (store {t} {s} now) h k = (book-limits t now s ∙ k, book-limits t now s ∙ k)
Move-Holds store_failed h k = (h, tt)
Move-Holds accept h k = (h, tt)
Move-Holds refuse h k = (h, k)
Move-Holds (roll_back {t} {s}) h k = (unbook-limits t s ∙ k, tt)
Move-Holds roll_back_failed h k = (h, tt)

pub All-middle :
    {A : Type 0} (P : A → Type 0) (before after : List A) (a : A)
    → All P (before ++ a ∷ after)
    → P a
All-middle P [] after a h = h.0
All-middle P (b ∷ before) after a h = All-middle P before after a h.1

pub All-replace :
    {A : Type 0} (P : A → Type 0) (before after : List A) (a a' : A)
    → All P (before ++ a ∷ after)
    → P a'
    → All P (before ++ a' ∷ after)
All-replace P [] after a a' h k = (k, h.1)
All-replace P (b ∷ before) after a a' h k = (h.0, All-replace P before after a a' h.1 k)

Step-HasLimits : {l : Limits} {s t : System} → Step s t → HasLimits l s → HasLimits l t
Step-HasLimits {l} (step {p = p} {p' = p'} before after move) h =
    let kept = Move-Holds move h.stored (All-middle (Holds l) before after p h.held) in
    record { stored = kept.0; held = All-replace (Holds l) before after p p' h.held kept.1 }

-- No interleaving of any number of workers changes the identity or the limits of a resource: if
-- the stored state and all states that workers hold have the same, then so they have in every
-- system that is reached from there.
pub Reach-HasLimits : {l : Limits} {s u : System} → Reach s u → HasLimits l s → HasLimits l u
Reach-HasLimits here h = h
Reach-HasLimits (later others last) h = Step-HasLimits last (Reach-HasLimits others h)
