-- ===== src/Util/Quote/Shell.antt =====
-- How a shell reads a word back: bare bytes, '..', "..", an escaped byte, and $'..' with its escapes.
-- Tilde and brace expansion, comments and locales are left out.
use ba.Base.{
  ℕ, ◌+◌, ◌-◌, ◌*◌, Bool, ◌&&◌, ◌||◌, [], ◌∷◌, ◌++◌, Option, none, some, Bytes, codes, leb, ◌==◌,
  if◌then◌else◌, contains,
}

pub data Reading : Type 0 where
  bare slash dollar single double ansi escape bad : Reading
  octal_two octal_one : ℕ → Reading

-- Bytes that a shell does not take for themselves.
abbrev pub is_meta : ℕ → Bool
is_meta c = leb c 32 || contains (codes "|&;()<>*?[$`!^\"'\\") c

abbrev pub is_octal_digit : ℕ → Bool
is_octal_digit c = leb b'0' c && leb c b'7'

abbrev pub escaped : ℕ → Reading × Bytes
escaped c =
    if c == b'a'
    then (ansi, 7 ∷ [])
    else if c == b'b'
    then (ansi, 8 ∷ [])
    else if c == b't'
    then (ansi, 9 ∷ [])
    else if c == b'n'
    then (ansi, 10 ∷ [])
    else if c == b'v'
    then (ansi, 11 ∷ [])
    else if c == b'f'
    then (ansi, 12 ∷ [])
    else if c == b'r'
    then (ansi, 13 ∷ [])
    else if is_octal_digit c
    then (octal_two (c - b'0'), [])
    else (bad, [])

-- The next state, and the bytes that it adds to the word.
unfoldable pub step : Reading → ℕ → Reading × Bytes
step bare c =
    if c == 39
    then (single, [])
    else if c == 34
    then (double, [])
    else if c == 92
    then (slash, [])
    else if c == b'$'
    then (dollar, [])
    else if is_meta c
    then (bad, [])
    else (bare, c ∷ [])
step slash c = (bare, c ∷ [])
step dollar c = if c == 39 then (ansi, []) else (bad, [])
step single c = if c == 39 then (bare, []) else (single, c ∷ [])
step double c =
    if c == 34
    then (bare, [])
    else if contains (codes "$`\\!") c
    then (bad, [])
    else (double, c ∷ [])
step ansi c = if c == 39 then (bare, []) else if c == 92 then (escape, []) else (ansi, c ∷ [])
step escape c = escaped c
step bad c = (bad, [])
step (octal_two v) c = if is_octal_digit c then (octal_one (v * 8 + (c - b'0')), []) else (bad, [])
step (octal_one v) c = if is_octal_digit c then (ansi, (v * 8 + (c - b'0')) ∷ []) else (bad, [])

abbrev pub prefix : Bytes → Option Bytes → Option Bytes
prefix [] result = result
prefix (c ∷ out) none = none
prefix (c ∷ out) (some rest) = some (c ∷ (out ++ rest))

abbrev pub at_word_end : Reading → Option Bytes
at_word_end bare = some []
at_word_end other = none

-- The word that a text stands for, if it is one word.
unfoldable pub read_word : Reading → Bytes → Option Bytes
unfolding step
read_word r [] = at_word_end r
read_word r (c ∷ s) = prefix ((step r c).1) (read_word ((step r c).0) s)
