-- ===== src/Cut/Units.antt =====
-- The `range` loop over a line in `cutPositions`, and `utf8.RuneCountInString`: Go's UTF-8 decoding.
-- A byte that starts no valid sequence is U+FFFD, which `string(r)` writes as three bytes.
use ba.Base.{
  ℕ, zero, suc, ◌<◌, ◌≤◌, ◌≡◌, refl, Bool, true, false, ◌&&◌, List, [], ◌∷◌, Bytes, arith, leb, ltb,
  ◌==◌, if◌then◌else◌, length, take, drop, All,
}
use ba.Cut.Select.{byte_units}

abbrev pub is_in : ℕ → ℕ → ℕ → Bool
is_in lo hi c = leb lo c && leb c hi

-- The bounds of the second byte depend on the first: no overlong form, no surrogate, no value above
-- U+10FFFF.
abbrev pub is_second : ℕ → ℕ → Bool
is_second c d =
    if c == 0xE0
    then is_in 0xA0 0xBF d
    else if c == 0xED
    then is_in 0x80 0x9F d
    else if c == 0xF0
    then is_in 0x90 0xBF d
    else if c == 0xF4
    then is_in 0x80 0x8F d
    else is_in 0x80 0xBF d

-- The bytes of a sequence with this first byte; 0 if there is none.
abbrev pub width : ℕ → ℕ
width c =
    if ltb c 0x80
    then 1
    else if is_in 0xC2 0xDF c
    then 2
    else if is_in 0xE0 0xEF c
    then 3
    else if is_in 0xF0 0xF4 c
    then 4
    else 0

-- Whether the text goes on with the `n` bytes that follow a second one.
abbrev pub goes_on : ℕ → Bytes → Bool
goes_on zero s = true
goes_on (suc n) [] = false
goes_on (suc n) (c ∷ s) = is_in 0x80 0xBF c && goes_on n s

abbrev pub is_sequence : ℕ → ℕ → Bytes → Bool
is_sequence zero c s = false
is_sequence (suc zero) c s = true
is_sequence (suc (suc n)) c [] = false
is_sequence (suc (suc n)) c (d ∷ s) = is_second c d && goes_on n s

abbrev pub replacement : Bytes
replacement = 0xEF ∷ 0xBF ∷ 0xBD ∷ []

-- The units of a text of at most `fuel` bytes.
unfoldable pub units_loop : ℕ → Bytes → List Bytes
units_loop zero s = []
units_loop (suc fuel) [] = []
units_loop (suc fuel) (c ∷ s) =
    let n = width c in
    let valid = is_sequence n c s in
    let rest = units_loop fuel (if valid then drop n (c ∷ s) else s) in
    (if valid then take n (c ∷ s) else replacement) ∷ rest

unfoldable pub char_units : Bytes → List Bytes
unfolding units_loop
char_units s = units_loop (length s) s

-- `utf8.RuneCountInString`
abbrev pub rune_count : Bytes → ℕ
rune_count s = length (char_units s)

units_loop-byte_units :
    (fuel : ℕ) (s : Bytes)
    → length s ≤ fuel
    → All (λ c. c < 0x80) s
    → units_loop fuel s ≡ byte_units s
unfolding units_loop
units_loop-byte_units zero [] le h = refl
units_loop-byte_units zero (c ∷ s) le h = ground arith
units_loop-byte_units (suc fuel) [] le h = refl
units_loop-byte_units (suc fuel) (c ∷ s) le (lt, h) =
    ground (arith, units_loop-byte_units fuel s (omega arith) h)

-- On a line of ASCII the characters are the bytes.
pub char_units-byte_units : (s : Bytes) → All (λ c. c < 0x80) s → char_units s ≡ byte_units s
unfolding char_units
char_units-byte_units s h = units_loop-byte_units (length s) s (omega arith) h
