-- ===== src/Common/Host.antt =====
-- What the program asks of the Go runtime and of `ajan/lib`: the clock, fresh ids, and the order in
-- which a `range` over a map visits its keys, which Go leaves open.
use Prim.Native.Nat.{ℕ}
use Prim.Native.String.{String}
use mathlib.Core.List.{List}

-- `time.Time` as the nanoseconds since its zero value, so `IsZero` is a test against 0.
abbrev pub Time : Type 0
Time = ℕ

pub record Runtime (W : Type 0) : Type 0 where
  -- `time.Now`
  pub now : W → Time × W
  -- `lib.IdsGenerateUnique`
  pub unique_id : W → String × W
  -- the order of one `range` over a map with these keys
  pub range_keys : List String → W → List String × W
