-- ===== src/Xz/Vli/Laws.antt =====
-- A number that is written is read back, with its width, whatever follows.
use ba.Base.{
  ℕ, zero, suc, ◌+◌, ◌*◌, ◌⊎◌, ◌/◌, ◌%◌, ◌^◌, ◌≤◌, ◌<◌, ◌≡◌, refl, ap, ◌∙◌, true, false, ◌&&◌, inl,
  inr, Bool-cases, ◌∷◌, ◌++◌, Bytes, arith, length, ltb, ◌==◌, Result, ok,
}
use ba.Xz.Check.{XzError}
use ba.Xz.Vli.{vli_loop, vli, read_vli_loop, read_vli}

-- What `n` bytes hold.
bound : ℕ → ℕ
bound zero = 1
bound (suc n) = 128 * bound n

-- The last byte is no zero, unless it is the only one.
read_last :
    (left i scale value v : ℕ) (rest : Bytes)
    → v < 128
    → (0 < v) ⊎ (i ≡ 0)
    → read_vli_loop (suc left) i scale value (v % 128 ∷ rest) ≡ ok (value + v * scale, i + 1, rest)
unfolding read_vli_loop
read_last left i scale value v rest h k =
    let low : v % 128 % 128 ≡ v = omega arith in
    let ends : (v % 128 / 128 % 2 == 0) ≡ true = ground arith in
    let plain : ((v % 128 == 0) && ltb 0 i) ≡ false = ground arith in rw (ends, plain, low)

read_first :
    (left i scale value v : ℕ) (s : Bytes)
    → read_vli_loop (suc left) i scale value ((v % 128 + 128) ∷ s)
      ≡ read_vli_loop left (i + 1) (scale * 128) (value + v % 128 * scale) s
unfolding read_vli_loop
read_first left i scale value v s =
    let low : (v % 128 + 128) % 128 ≡ v % 128 = omega arith in
    let goes : ((v % 128 + 128) / 128 % 2 == 0) ≡ false = ground arith in rw (goes, low)

scaled : (value v scale : ℕ) → value + v % 128 * scale + v / 128 * (scale * 128) ≡ value + v * scale
scaled value v scale =
    let whole : v % 128 + v / 128 * 128 ≡ v = omega arith in
    let e = ap (λ (t : ℕ). t * scale) whole in grind (arith, e)

read_vli_loop-vli_loop :
    (left fuel i scale value v : ℕ) (rest : Bytes)
    → left ≤ fuel
    → v < bound left
    → (0 < v) ⊎ ((i ≡ 0) × (0 < left))
    → read_vli_loop left i scale value (vli_loop fuel v ++ rest)
      ≡ ok (value + v * scale, i + length (vli_loop fuel v), rest)
unfolding vli_loop bound
read_vli_loop-vli_loop zero fuel i scale value v rest le h k = absurd (omega arith)
read_vli_loop-vli_loop (suc left) zero i scale value v rest le h k = absurd (omega arith)
read_vli_loop-vli_loop (suc left) (suc fuel) i scale value v rest le h k =
    elim (Bool-cases (v / 128 == 0)) [
      | inl e ↦ rw e (read_last left i scale value v rest (ground arith) (omega arith))
      | inr e ↦
          let more : 0 < v / 128 = ground arith in
          let ih =
            read_vli_loop-vli_loop left fuel (i + 1) (scale * 128) (value + v % 128 * scale)
              (v / 128) rest (omega arith) (omega arith) (inl more) in
          let len : i + 1 + length (vli_loop fuel (v / 128))
              ≡ i + suc (length (vli_loop fuel (v / 128))) =
            omega arith in
          rw e (
            read_first left i scale value v (vli_loop fuel (v / 128) ++ rest)
            ∙ (ih ∙ rw (scaled value v scale, len)))
    ]

from_zero :
    (v n : ℕ) (rest : Bytes)
    → ◌≡◌ {A = Result XzError (ℕ × ℕ × Bytes)} (ok (0 + v * 1, 0 + n, rest)) (ok (v, n, rest))
from_zero v n rest =
    let a : 0 + v * 1 ≡ v = omega arith in let b : 0 + n ≡ n = omega arith in rw (a, b)

-- Numbers below 2 ^ 63 are read back.
pub read_vli-vli :
    (v : ℕ) (rest : Bytes) → v < 2 ^ 63 → read_vli (vli v ++ rest) ≡ ok (v, length (vli v), rest)
unfolding read_vli vli bound
read_vli-vli v rest h =
    read_vli_loop-vli_loop 9 10 0 1 0 v rest (omega arith) h (inr (refl, omega arith))
    ∙ from_zero v (length (vli_loop 10 v)) rest
