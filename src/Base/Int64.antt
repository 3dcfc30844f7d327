-- ===== src/Base/Int64.antt =====
-- Go's `int` and `int64` as two's-complement bit patterns: a number below 2 ^ 64 that stands for
-- itself below 2 ^ 63, and for itself minus 2 ^ 64 from there on.
use Prim.Native.Nat.{ℕ, ◌+◌, ◌-◌, ◌%◌, ◌^◌, ◌≤◌, ◌<◌}
use mathlib.Core.Path.{◌≡◌}
use mathlib.Core.Bool.{Bool}
use native.Mathlib.Omega.{arith}
use ba.Base.Tests.{ltb}

abbrev pub modulus : ℕ
modulus = 2 ^ 64

abbrev pub max_int : ℕ
max_int = 2 ^ 63 - 1

unfoldable pub add64 : ℕ → ℕ → ℕ
add64 a b = (a + b) % 2 ^ 64

unfoldable pub sub64 : ℕ → ℕ → ℕ
sub64 a b = (a + 2 ^ 64 - b) % 2 ^ 64

-- `a < b` of signed integers: the patterns, moved by 2 ^ 63, are in order.
unfoldable pub slt : ℕ → ℕ → Bool
slt a b = ltb ((a + 2 ^ 63) % 2 ^ 64) ((b + 2 ^ 63) % 2 ^ 64)

-- On non-negative values the signed order is that of the numbers.
pub slt-eq-ltb : (a b : ℕ) → a ≤ max_int → b ≤ max_int → slt a b ≡ ltb a b
unfolding slt
slt-eq-ltb a b ha hb = ground arith

pub add64-eq-add : (a b : ℕ) → a + b < 2 ^ 64 → add64 a b ≡ a + b
unfolding add64
add64-eq-add a b h = omega arith

pub sub64-eq-sub : (a b : ℕ) → b ≤ a → a < 2 ^ 64 → sub64 a b ≡ a - b
unfolding sub64
sub64-eq-sub a b h k = omega arith
