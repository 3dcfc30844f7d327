-- ===== src/Tr/Expand.antt =====
-- `expandSet` of tr.go: the byte sequence that a SET specification denotes. The loop index `i` is
-- the rest of the text from `i` on; a slice expression that Go would refuse at run time is `panic`.
pub mod Bounds
pub mod RoundTrip
use Prim.Native.Nat.{min}
use mathlib.Core.Option
use ba.Base.{
  ℕ, Bool, zero, suc, ◌+◌, ◌-◌, ◌*◌, not, ◌&&◌, List, [], ◌∷◌, ◌++◌, Option, none, some, Bytes, leb,
  ltb, ◌==◌, if◌then◌else◌, length, take, drop,
}
use ba.Tr.Sets.{expand_class, unescape_byte}

pub data Expansion : Type 0 where
  expanded : Bytes → Expansion
  unknown_class : Bytes → Expansion
  reverse_order : Bytes → Expansion
  panic : Expansion
  out_of_fuel : Expansion

-- `strings.Index(s, ":]")`
unfoldable pub index_close : Bytes → Option ℕ
index_close [] = none
index_close (a ∷ []) = none
index_close (a ∷ b ∷ s) =
    if (a == b':') && (b == b']') then some 0 else Option.map suc (index_close (b ∷ s))

abbrev pub is_octal : ℕ → Bool
is_octal c = leb b'0' c && leb c b'7'

-- The octal digits at the front, `limit` at most, and what follows them.
unfoldable pub octal_run : ℕ → Bytes → Bytes × Bytes
octal_run zero s = ([], s)
octal_run (suc limit) [] = ([], [])
octal_run (suc limit) (c ∷ s) =
    let (digits, rest) = octal_run limit s in if is_octal c then (c ∷ digits, rest) else ([], c ∷ s)

-- `strconv.ParseUint(digits, 8, 8)` with its error dropped: out of range it returns 255.
unfoldable pub octal_value : ℕ → Bytes → ℕ
octal_value v [] = min v 255
octal_value v (c ∷ digits) = octal_value (v * 8 + (c - b'0')) digits

-- `for c := lo; c <= hi; c++`, by the rounds left
unfoldable pub span : ℕ → ℕ → Bytes
span zero c = []
span (suc rounds) c = c ∷ span rounds (c + 1)

-- What one round of the loop does at the front of the text: append bytes and go on with the rest.
pub data Step : Type 0 where
  emit : Bytes → Bytes → Step
  stop : Expansion → Step

unfoldable pub class_found : Bytes → Bytes → Option Bytes → Step
class_found class rest none = stop (unknown_class class)
class_found class rest (some bytes) = emit bytes rest

-- `class := s[i+2 : i+end]`, at the text from `i` on; the slice is out of order where `end < 2`.
unfoldable pub class_step : Bytes → ℕ → Step
class_step s end =
    let class = take (end - 2) (drop 2 s) in
    if ltb end 2 then stop panic else class_found class (drop (end + 2) s) (expand_class class)

unfoldable pub octal_step : ℕ → Bytes × Bytes → Step
octal_step c (digits, rest) = emit (octal_value 0 (c ∷ digits) ∷ []) rest

-- The text from the byte behind the backslash on.
unfoldable pub escape_step : ℕ → Bytes → Step
escape_step c s = if is_octal c then octal_step c (octal_run 2 s) else emit (unescape_byte c ∷ []) s

-- `a-z`, or a byte that stands for itself.
unfoldable pub range_step : ℕ → Bytes → Step
range_step lo [] = emit (lo ∷ []) []
range_step lo (d ∷ []) = emit (lo ∷ []) (d ∷ [])
range_step lo (d ∷ hi ∷ rest) =
    if (d == b'-') && not (hi == b'\\')
    then if leb lo hi
      then emit (span (hi + 1 - lo) lo) rest
      else stop (reverse_order (lo ∷ d ∷ hi ∷ []))
    else emit (lo ∷ []) (d ∷ hi ∷ rest)

-- Where the text opens a class and closes it: the position of the closing `:]`.
unfoldable pub class_at : ℕ → Bytes → Option ℕ
class_at c [] = none
class_at c (d ∷ s) = if (c == b'[') && (d == b':') then index_close (c ∷ d ∷ s) else none

unfoldable pub plain_step : ℕ → Bytes → Step
plain_step c [] = range_step c []
plain_step c (d ∷ s) = if c == b'\\' then escape_step d s else range_step c (d ∷ s)

-- The body of the loop, at the byte `c` with `s` behind it.
unfoldable pub round : ℕ → Bytes → Step
round c s = elim (class_at c s) [ some end ↦ class_step (c ∷ s) end | none ↦ plain_step c s ]

unfoldable pub expand_loop : ℕ → Bytes → Bytes → Expansion
expand_loop fuel [] out = expanded out
expand_loop zero (c ∷ s) out = out_of_fuel
expand_loop (suc fuel) (c ∷ s) out = elim (round c s) [
  | emit bytes rest ↦ expand_loop fuel rest (out ++ bytes)
  | stop e ↦ e
]

unfoldable pub expand_set : Bytes → Expansion
unfolding expand_loop round class_at class_step class_found plain_step escape_step octal_step
    range_step index_close octal_run octal_value span expand_class unescape_byte
expand_set s = expand_loop (length s) s []
