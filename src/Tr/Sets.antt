-- ===== src/Tr/Sets.antt =====
-- The byte tables and character classes of tr.go: inSet, forEachByte, expandClass, complementSet,
-- unescapeByte.
pub mod Laws
use ba.Base.{
  ℕ, zero, suc, ◌+◌, Bool, true, false, not, ◌&&◌, ◌||◌, List, [], ◌∷◌, ◌++◌, Option, none, some,
  Bytes, codes, leb, ◌==◌, if◌then◌else◌, contains, bytes_eq,
}

-- A `[256]bool`, read at bytes only.
abbrev pub Table : Type 0
Table = ℕ → Bool

abbrev pub mark : Table → ℕ → Table
mark t b c = if b == c then true else t c

-- `for _, b := range set { t[b] = true }`
mark_all : Bytes → Table → Table
mark_all [] t = t
mark_all (b ∷ set) t = mark_all set (mark t b)

unfoldable pub in_set : Bytes → Table
unfolding mark_all
in_set set = mark_all set (λ _. false)

-- `for c := 0; c < 256; c++ { fn(byte(c)) }`, by the rounds left; the callback updates `s`.
for_bytes {ℓ} : {S : Type ℓ} → ℕ → ℕ → (ℕ → S → S) → S → S
for_bytes zero c fn s = s
for_bytes (suc rounds) c fn s = for_bytes rounds (c + 1) fn (fn c s)

unfoldable pub for_each_byte {ℓ} : {S : Type ℓ} → (ℕ → S → S) → S → S
unfolding for_bytes
for_each_byte fn s = for_bytes 256 0 fn s

-- The closure `add` of `expandClass`, on an empty `out`.
unfoldable pub add_class : (ℕ → Bool) → Bytes
unfolding for_each_byte
add_class pred = for_each_byte (λ b out. if pred b then out ++ b ∷ [] else out) []

abbrev pub is_digit : ℕ → Bool
is_digit b = leb b'0' b && leb b b'9'

abbrev pub is_lower : ℕ → Bool
is_lower b = leb b'a' b && leb b b'z'

abbrev pub is_upper : ℕ → Bool
is_upper b = leb b'A' b && leb b b'Z'

abbrev pub is_alpha : ℕ → Bool
is_alpha b = is_lower b || is_upper b

abbrev pub is_alnum : ℕ → Bool
is_alnum b = is_digit b || is_lower b || is_upper b

abbrev pub punctuation : Bytes
punctuation = codes "!\"#$%&'()*+,-./:;<=>?@[\\]^_`{|}~"

unfoldable pub expand_class : Bytes → Option Bytes
unfolding add_class
expand_class name =
    if bytes_eq name (codes "digit")
    then some (add_class is_digit)
    else if bytes_eq name (codes "lower")
    then some (add_class is_lower)
    else if bytes_eq name (codes "upper")
    then some (add_class is_upper)
    else if bytes_eq name (codes "alpha")
    then some (add_class is_alpha)
    else if bytes_eq name (codes "alnum")
    then some (add_class is_alnum)
    else if bytes_eq name (codes "space")
    then some (32 ∷ 9 ∷ 10 ∷ 13 ∷ 11 ∷ 12 ∷ [])
    else if bytes_eq name (codes "blank")
    then some (32 ∷ 9 ∷ [])
    else if bytes_eq name (codes "punct")
    then some (add_class (contains punctuation))
    else none

unfoldable pub complement_set : Bytes → Bytes
unfolding for_each_byte in_set
complement_set set =
    let present = in_set set in
    for_each_byte (λ b out. if not (present b) then out ++ b ∷ [] else out) []

unfoldable pub unescape_byte : ℕ → ℕ
unescape_byte c =
    if c == b'n'
    then 10
    else if c == b't'
    then 9
    else if c == b'r'
    then 13
    else if c == b'f'
    then 12
    else if c == b'v'
    then 11
    else if c == b'a'
    then 7
    else if c == b'b'
    then 8
    else if c == b'\\'
    then b'\\'
    else c
