-- ===== src/Common/Dict.antt =====
-- A Go map with text keys as an association list: reading a key, and assigning to it.
use Prim.Native.String.{String}
use mathlib.Core.Option.{Option, none, some}
use mathlib.Core.List.{List, [], ◌∷◌, map}
use mathlib.Core.Path.{◌≡◌}
use mathlib.Core.Logic.{◌≢◌}
use native.Mathlib.Omega.{arith}
use text.Mathlib.Text.{◌==◌}
use text.Mathlib.TextEquality.{eq_iff}
use bfo.Common.Tests.{if◌then◌else◌}

abbrev pub Map : Type 0 → Type 0
Map V = List (String × V)

module _ {V : Type 0} where
  -- `m[key]`, with `none` for the missing key
  unfoldable pub lookup : String → Map V → Option V
  lookup key [] = none
  lookup key (entry ∷ rest) = if key == entry.0 then some entry.1 else lookup key rest

  abbrev without : String → Map V → Map V
  without key [] = []
  without key (entry ∷ rest) =
      let kept = without key rest in if key == entry.0 then kept else entry ∷ kept

  -- `m[key] = value`
  unfoldable pub insert : String → V → Map V → Map V
  insert key value m = (key, value) ∷ without key m

  abbrev pub keys : Map V → List String
  keys = map (λ entry. entry.0)

module _ {V : Type 0} where
  pub lookup-insert :
      (key : String) (value : V) (m : Map V) → lookup key (insert key value m) ≡ some value
  unfolding lookup insert
  lookup-insert key value m = ground (arith, eq_iff key key)

  lookup-without :
      (key other : String) (m : Map V) → key ≢ other → lookup key (without other m) ≡ lookup key m
  unfolding lookup
  lookup-without key other [] differ = ground arith
  lookup-without key other (entry ∷ rest) differ =
      ground (arith, lookup-without key other rest differ, eq_iff other entry.0, eq_iff key entry.0)

  pub lookup-insert_other :
      (key other : String) (value : V) (m : Map V)
      → key ≢ other
      → lookup key (insert other value m) ≡ lookup key m
  unfolding lookup insert
  lookup-insert_other key other value m differ =
      ground (arith, lookup-without key other m differ, eq_iff key other)
