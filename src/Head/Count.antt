-- ===== src/Head/Count.antt =====
-- `parseCount` of head.go: a non-negative count with a binary suffix. Spaces are those of ASCII.
pub mod Laws
use ba.Base.{
  ℕ, zero, suc, ◌+◌, ◌-◌, ◌*◌, ◌/◌, ◌%◌, ◌^◌, Bool, true, false, not, ◌&&◌, ◌||◌, List, [], ◌∷◌,
  ◌++◌, Option, none, some, Bytes, leb, ltb, ◌==◌, if◌then◌else◌,
}
use ba.Base.Int64.{max_int}

abbrev pub is_space : ℕ → Bool
is_space c = (leb 9 c && leb c 13) || (c == 32)

unfoldable pub trim_left : Bytes → Bytes
trim_left [] = []
trim_left (c ∷ s) = if is_space c then trim_left s else c ∷ s

-- A space stays only if something else stands behind it.
unfoldable pub kept : ℕ → Bytes → Bytes
kept c [] = if is_space c then [] else c ∷ []
kept c (d ∷ t) = c ∷ d ∷ t

unfoldable pub trim_right : Bytes → Bytes
unfolding kept
trim_right [] = []
trim_right (c ∷ s) = kept c (trim_right s)

-- `strings.TrimSpace`
unfoldable pub trim_space : Bytes → Bytes
unfolding trim_left trim_right
trim_space s = trim_right (trim_left s)

abbrev pub is_digit : ℕ → Bool
is_digit c = leb b'0' c && leb c b'9'

-- Decimal digits behind `n`, without a bound; `none` at another byte.
unfoldable pub digits_value : ℕ → Bytes → Option ℕ
digits_value n [] = some n
digits_value n (c ∷ s) = if is_digit c then digits_value (n * 10 + (c - b'0')) s else none

unfoldable pub unsigned : Bytes → Option ℕ
unfolding digits_value
unsigned [] = none
unsigned (c ∷ s) = digits_value 0 (c ∷ s)

-- A signed number in the range of an int64: its magnitude, and whether it is negative.
unfoldable pub in_range : Bool → Option ℕ → Option (Bool × ℕ)
in_range negative none = none
in_range negative (some n) =
    if ltb (if negative then 2 ^ 63 else max_int) n then none else some (negative, n)

-- `strconv.ParseInt(s, 10, 64)`
unfoldable pub parse_int : Bytes → Option (Bool × ℕ)
unfolding in_range unsigned
parse_int [] = none
parse_int (c ∷ s) =
    if c == b'-'
    then in_range true (unsigned s)
    else if c == b'+'
    then in_range false (unsigned s)
    else in_range false (unsigned (c ∷ s))

-- The factor of a suffix; 0 if the byte is none.
abbrev pub suffix_factor : ℕ → ℕ
suffix_factor c =
    if (c == b'k') || (c == b'K')
    then 1024
    else if (c == b'm') || (c == b'M')
    then 1024 * 1024
    else if (c == b'g') || (c == b'G')
    then 1024 * 1024 * 1024
    else if c == b'b'
    then 512
    else 0

-- The factor, and the text without the suffix.
unfoldable pub split_suffix : Bytes → ℕ × Bytes
split_suffix [] = (1, [])
split_suffix (c ∷ []) = if suffix_factor c == 0 then (1, c ∷ []) else (suffix_factor c, [])
split_suffix (c ∷ d ∷ s) = let (factor, text) = split_suffix (d ∷ s) in (factor, c ∷ text)

-- `v < 0 || v > math.MaxInt64/mult`
unfoldable pub scale : ℕ → Option (Bool × ℕ) → Option ℕ
scale factor none = none
scale factor (some (negative, v)) =
    if (negative && not (v == 0)) || ltb (max_int / factor) v then none else some (v * factor)

unfoldable pub count_of : ℕ × Bytes → Option ℕ
unfolding scale parse_int
count_of (factor, text) = scale factor (parse_int text)

unfoldable pub parse_trimmed : Bytes → Option ℕ
unfolding count_of split_suffix
parse_trimmed [] = none
parse_trimmed (c ∷ s) = count_of (split_suffix (c ∷ s))

unfoldable pub parse_count : Bytes → Option ℕ
unfolding parse_trimmed trim_space
parse_count s = parse_trimmed (trim_space s)
