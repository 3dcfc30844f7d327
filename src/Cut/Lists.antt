-- ===== src/Cut/Lists.antt =====
-- `parseRanges` of cut.go: the list of a `-b`, `-c` or `-f` option.
pub mod Sound
use ba.Base.{
  ℕ, ◌+◌, ◌-◌, ◌*◌, Bool, true, false, not, ◌&&◌, ◌||◌, List, [], ◌∷◌, Option, none, some, Bytes,
  codes, leb, ltb, ◌==◌, if◌then◌else◌, Result, ok, err, ◌>>=◌,
}
use ba.Base.Int64.{max_int, slt}
use ba.Base.Split.{split}
use ba.Cut.Ranges.{Range}

-- The errors, with the text that the message quotes.
pub data ListError : Type 0 where
  invalid_value : Bytes → ListError
  numbered_from_one : ListError
  decreasing : ListError

abbrev pub is_digit_byte : ℕ → Bool
is_digit_byte c = leb b'0' c && leb c b'9'

-- `text[digits:]`, behind the digits at the front
unfoldable pub drop_digits : Bytes → Bytes
drop_digits [] = []
drop_digits (c ∷ s) = if is_digit_byte c then drop_digits s else c ∷ s

-- The number that decimal digits spell behind `n`, with no bound.
unfoldable pub decimal : ℕ → Bytes → ℕ
decimal n [] = n
decimal n (c ∷ s) = decimal (n * 10 + (c - b'0')) s

-- `strconv.Atoi` on digits fails above the largest `int`.
unfoldable pub check_number : Bytes → ℕ → Result ListError ℕ
check_number text n =
    if ltb max_int n
    then err (invalid_value text)
    else if ltb n 1
    then err numbered_from_one
    else ok n

unfoldable pub number_behind : Bytes → Bytes → Result ListError ℕ
unfolding check_number decimal
number_behind [] rest = err (invalid_value rest)
number_behind (c ∷ text) [] = check_number (c ∷ text) (decimal 0 (c ∷ text))
number_behind (c ∷ text) (d ∷ rest) = err (invalid_value (d ∷ rest))

unfoldable pub number : Bytes → Result ListError ℕ
unfolding number_behind drop_digits
number text = number_behind text (drop_digits text)

-- The texts on the two sides of the first dash.
unfoldable pub cut_at_dash : Bytes → Option (Bytes × Bytes)
cut_at_dash [] = none
cut_at_dash (c ∷ s) =
    if c == b'-'
    then some ([], s)
    else elim (cut_at_dash s) [ some (a, b) ↦ some (c ∷ a, b) | none ↦ none ]

-- One end of a range: the number, or the default if the text is empty.
unfoldable pub range_end : Bytes → ℕ → Result ListError ℕ
unfolding number
range_end [] default = ok default
range_end (c ∷ text) default = number (c ∷ text)

unfoldable pub check_order : ℕ → ℕ → Result ListError Range
check_order lo hi =
    if not (hi == 0) && slt hi lo then err decreasing else ok (record { lo = lo; hi = hi })

unfoldable pub parse_sides : Bytes → Option (Bytes × Bytes) → Result ListError Range
unfolding number range_end check_order
parse_sides part none = do n ← number part; ok (record { lo = n; hi = n })
parse_sides part (some (lo_text, hi_text)) = do
  lo ← range_end lo_text 1
  hi ← range_end hi_text 0
  check_order lo hi

unfoldable pub parse_part : Bytes → Result ListError Range
unfolding parse_sides cut_at_dash
parse_part part = parse_sides part (cut_at_dash part)

-- The loop over the parts; an empty part is passed over.
unfoldable pub parse_parts : List Bytes → Result ListError (List Range)
unfolding parse_part
parse_parts [] = ok []
parse_parts ([] ∷ parts) = parse_parts parts
parse_parts ((c ∷ part) ∷ parts) = do r ← parse_part (c ∷ part); rs ← parse_parts parts; ok (r ∷ rs)

unfoldable pub require_some : List Range → Result ListError (List Range)
require_some [] = err numbered_from_one
require_some (r ∷ rs) = ok (r ∷ rs)

unfoldable pub parse_ranges : Bytes → Result ListError (List Range)
unfolding parse_parts require_some
parse_ranges spec = do rs ← parse_parts (split spec (b',' ∷ [])); require_some rs
