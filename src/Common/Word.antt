-- ===== src/Common/Word.antt =====
-- Go's `int` and `int64` as 64-bit two's complement patterns: a number below 2 ^ 64, with the
-- wrap-around of the machine written out. A pattern below 2 ^ 63 stands for itself.
use Prim.Native.Nat.{ℕ, ◌+◌, ◌-◌, ◌/◌, ◌%◌, ◌^◌, ◌<◌}
use mathlib.Core.Path.{◌≡◌}
use mathlib.Core.Bool.{Bool, false}
use native.Mathlib.Omega.{arith}
use bfo.Common.Tests.{ltb, leb, if◌then◌else◌}

abbrev pub Int64 : Type 0
Int64 = ℕ

abbrev pub word_mod : ℕ
word_mod = 2 ^ 64

abbrev pub sign_bit : ℕ
sign_bit = 2 ^ 63

unfoldable pub add64 : Int64 → Int64 → Int64
add64 a b = (a + b) % word_mod

unfoldable pub sub64 : Int64 → Int64 → Int64
sub64 a b = (a + word_mod - b) % word_mod

-- Flipping the sign bit turns the signed order into the order of the patterns.
abbrev pub biased : Int64 → ℕ
biased a = (a + sign_bit) % word_mod

-- a > b, signed
unfoldable pub gt64 : Int64 → Int64 → Bool
gt64 a b = ltb (biased b) (biased a)

-- a >= b, signed
unfoldable pub ge64 : Int64 → Int64 → Bool
ge64 a b = leb (biased b) (biased a)

-- a / k, truncated towards zero, for a positive constant k
unfoldable pub quot64 : Int64 → ℕ → Int64
quot64 a k = if ltb a sign_bit then a / k else (word_mod - (word_mod - a) / k) % word_mod

abbrev pub IsWord : Int64 → Type 0
IsWord a = a < word_mod

-- A pattern that stands for a number that is zero or more.
abbrev pub IsNonNeg : Int64 → Type 0
IsNonNeg a = a < sign_bit

-- Taking away what was added gives back the word, also where the sum wrapped.
pub sub64-add64 : (a b : Int64) → IsWord a → IsWord b → sub64 (add64 a b) b ≡ a
unfolding sub64 add64
sub64-add64 a b ha hb = omega arith

pub add64-lt : (a b : Int64) → IsWord (add64 a b)
unfolding add64
add64-lt a b = omega arith

pub ge64-false : (a b : Int64) → IsNonNeg a → IsNonNeg b → ge64 a b ≡ false → a < b
unfolding ge64
ge64-false a b ha hb h = ground arith
