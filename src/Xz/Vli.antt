-- ===== src/Xz/Vli.antt =====
-- Integers of variable length: `xzVLI` and `readXZVLI`. `|` of bits that do not overlap is a sum, and
-- `scale` is `1 << (7 * i)`.
pub mod Laws
use ba.Base.{
  ℕ, zero, suc, ◌+◌, ◌*◌, ◌/◌, ◌%◌, Bool, ◌&&◌, List, [], ◌∷◌, Bytes, ltb, ◌==◌, if◌then◌else◌,
  Result, ok, err,
}
use ba.Xz.Check.{XzError, unexpected_eof, invalid_integer}

-- The loop of `xzVLI`; ten rounds are enough for 64 bits.
unfoldable pub vli_loop : ℕ → ℕ → Bytes
vli_loop zero v = []
vli_loop (suc fuel) v =
    let more = (v % 128 + 128) ∷ vli_loop fuel (v / 128) in
    if v / 128 == 0 then v % 128 ∷ [] else more

unfoldable pub vli : ℕ → Bytes
unfolding vli_loop
vli v = vli_loop 10 v

-- The value, its width and the rest. `i` bytes have been read, and `left` may follow.
unfoldable pub read_vli_loop : ℕ → ℕ → ℕ → ℕ → Bytes → Result XzError (ℕ × ℕ × Bytes)
read_vli_loop zero i scale value input = err invalid_integer
read_vli_loop (suc left) i scale value [] = err unexpected_eof
read_vli_loop (suc left) i scale value (b ∷ s) =
    let value' = value + b % 128 * scale in
    let more = read_vli_loop left (i + 1) (scale * 128) value' s in
    let last =
      if◌then◌else◌ {A = Result XzError (ℕ × ℕ × Bytes)} ((b == 0) && ltb 0 i) (err invalid_integer)
        (ok (value', i + 1, s)) in
    if b / 128 % 2 == 0 then last else more

unfoldable pub read_vli : Bytes → Result XzError (ℕ × ℕ × Bytes)
unfolding read_vli_loop
read_vli input = read_vli_loop 9 0 1 0 input
