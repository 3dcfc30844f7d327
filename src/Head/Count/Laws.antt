-- ===== src/Head/Count/Laws.antt =====
-- What `parseCount` returns.
use ba.Base.{
  ℕ, ◌+◌, ◌-◌, ◌*◌, ◌/◌, ◌≤◌, ◌<◌, ◌≡◌, ap, ◌∙◌, Bool, true, false, [], ◌∷◌, ◌++◌, Option, none,
  some, Bytes, arith, All, ◌==◌,
}
use ba.Base.Int64.{max_int}
use ba.Head.Count.{
  is_space, kept, is_digit, digits_value, unsigned, in_range, parse_int, suffix_factor,
  split_suffix, scale, count_of, parse_trimmed, trim_space, trim_left, trim_right, parse_count,
}

mul_fits : (m f v : ℕ) → 0 < f → v ≤ m / f → v * f ≤ m
mul_fits m f v pos h = grind arith

scale_bounds :
    (factor : ℕ) (o : Option (Bool × ℕ)) (n : ℕ)
    → 0 < factor
    → scale factor o ≡ some n
    → n ≤ max_int
unfolding scale
scale_bounds factor none n pos e = cc
scale_bounds factor (some (negative, v)) n pos e = ground (arith, mul_fits max_int factor v pos)

split_suffix-pos : (s : Bytes) → 0 < (split_suffix s).0
unfolding split_suffix
split_suffix-pos [] = omega arith
split_suffix-pos (c ∷ []) = ground arith
split_suffix-pos (c ∷ d ∷ s) = split_suffix-pos (d ∷ s)

-- What `parseCount` returns fits an int64: the product with the factor does not overflow.
pub parse_count_bounds : (s : Bytes) (n : ℕ) → parse_count s ≡ some n → n ≤ max_int
unfolding parse_count parse_trimmed count_of
parse_count_bounds s n e = go (trim_space s) e
  where
    go : (t : Bytes) → parse_trimmed t ≡ some n → n ≤ max_int
    go [] e = cc
    go (c ∷ t) e =
        scale_bounds (split_suffix (c ∷ t)).0 (parse_int (split_suffix (c ∷ t)).1) n
          (split_suffix-pos (c ∷ t)) e

-- A digit is neither a space nor a sign.
digits_value-IsPlain :
    (n v : ℕ) (s : Bytes) → digits_value n s ≡ some v → All (λ c. is_digit c ≡ true) s
unfolding digits_value
digits_value-IsPlain n v [] e = tt
digits_value-IsPlain n v (c ∷ s) e = ground (arith, digits_value-IsPlain (n * 10 + (c - b'0')) v s)

trim_right_id :
    (s : Bytes) (last : ℕ)
    → All (λ c. is_digit c ≡ true) s
    → is_space last ≡ false
    → trim_right (s ++ last ∷ []) ≡ s ++ last ∷ []
unfolding trim_right
trim_right_id [] last h e = rw e
trim_right_id (c ∷ []) last h e = unfold kept in rw e
trim_right_id (c ∷ d ∷ s) last (h, hs) e = rw (trim_right_id (d ∷ s) last hs e)

split_suffix-append :
    (s : Bytes) (last : ℕ)
    → (suffix_factor last == 0) ≡ false
    → split_suffix (s ++ last ∷ []) ≡ (suffix_factor last, s)
unfolding split_suffix
split_suffix-append [] last e = rw e
split_suffix-append (c ∷ []) last e = rw e
split_suffix-append (c ∷ d ∷ s) last e =
    ap (λ p. (p.0, c ∷ p.1)) (split_suffix-append (d ∷ s) last e)

suffix-not_space : (c : ℕ) → (suffix_factor c == 0) ≡ false → is_space c ≡ false
suffix-not_space c h = ground arith

digit-not_space : (c : ℕ) → is_digit c ≡ true → is_space c ≡ false
digit-not_space c h = ground arith

trim_left_id : (c : ℕ) (s : Bytes) → is_space c ≡ false → trim_left (c ∷ s) ≡ c ∷ s
unfolding trim_left
trim_left_id c s h = rw h

parse_int_digits :
    (c v : ℕ) (text : Bytes)
    → is_digit c ≡ true
    → digits_value 0 (c ∷ text) ≡ some v
    → v ≤ max_int
    → parse_int (c ∷ text) ≡ some (false, v)
unfolding parse_int in_range unsigned
parse_int_digits c v text d e fits = ground arith

div_fits : (m f v : ℕ) → 0 < f → v * f ≤ m → v ≤ m / f
div_fits m f v pos h = grind arith

le-mul : (v f : ℕ) → 0 < f → v ≤ v * f
le-mul v f pos = grind arith

scale_fits : (f v : ℕ) → 0 < f → v * f ≤ max_int → scale f (some (false, v)) ≡ some (v * f)
unfolding scale
scale_fits f v pos h = ground (arith, div_fits max_int f v pos h)

-- Digits with a suffix are read as the number that the digits spell times the factor of the suffix,
-- where that product fits an int64.
pub parse_count-suffix :
    (c : ℕ) (text : Bytes) (last v : ℕ)
    → digits_value 0 (c ∷ text) ≡ some v
    → (suffix_factor last == 0) ≡ false
    → v * suffix_factor last ≤ max_int
    → parse_count ((c ∷ text) ++ last ∷ []) ≡ some (v * suffix_factor last)
unfolding parse_count
parse_count-suffix c text last v e f fits = ap parse_trimmed trimmed ∙ parsed
  where
    digits : All (λ b. is_digit b ≡ true) (c ∷ text)
    digits = digits_value-IsPlain 0 v (c ∷ text) e

    positive : 0 < suffix_factor last
    positive = ground arith

    trimmed : trim_space ((c ∷ text) ++ last ∷ []) ≡ (c ∷ text) ++ last ∷ []
    trimmed =
        unfold trim_space in
        ap trim_right (trim_left_id c (text ++ last ∷ []) (digit-not_space c digits.0))
        ∙ trim_right_id (c ∷ text) last digits (suffix-not_space last f)

    parsed : parse_trimmed ((c ∷ text) ++ last ∷ []) ≡ some (v * suffix_factor last)
    parsed =
        unfold parse_trimmed count_of in
        rw
          (
            split_suffix-append (c ∷ text) last f,
            parse_int_digits c v text digits.0 e
                (omega (arith, le-mul v (suffix_factor last) positive)),
          )
          (scale_fits (suffix_factor last) v positive fits)
