-- ===== src/Base/Decimal.antt =====
-- Decimal text of a number, and padding as `%7d` makes it.
use Prim.Native.Nat.{ℕ, zero, suc, ◌+◌, ◌-◌, ◌/◌, ◌%◌}
use mathlib.Core.List.{[], ◌∷◌, ◌++◌}
use ba.Base.Tests.{if◌then◌else◌, ltb}
use ba.Base.Lists.{Bytes, length, replicate}

-- The digits of a number of at most `fuel` digits.
unfoldable pub digits : ℕ → ℕ → Bytes
digits zero n = []
digits (suc fuel) n =
    let more = digits fuel (n / 10) ++ (b'0' + n % 10) ∷ [] in
    if ltb n 10 then (b'0' + n) ∷ [] else more

-- 20 digits are enough for 64 bits.
unfoldable pub decimal : ℕ → Bytes
unfolding digits
decimal n = digits 20 n

unfoldable pub pad_left : ℕ → Bytes → Bytes
pad_left width text = replicate (width - length text) 32 ++ text
