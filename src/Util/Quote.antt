-- ===== src/Util/Quote.antt =====
-- How util.go quotes names in messages: `shellQuoteName`, `quoteForceName`, `ansiCEscape` and
-- `quoteLocaleName`.
pub mod Shell
pub mod Laws
pub mod Force
mod Examples
use ba.Base.{
  ℕ, ◌+◌, ◌/◌, ◌%◌, Bool, true, false, not, ◌&&◌, ◌||◌, List, [], ◌∷◌, ◌++◌, Bytes, codes, leb, ltb,
  ◌==◌, if◌then◌else◌, contains, bytes_eq,
}

abbrev pub name_bare : Bytes
name_bare = codes "#%+,-./@]_{}~"

abbrev pub name_double_quotable : Bytes
name_double_quotable = codes " %'+,-./:@]_"

unfoldable pub is_alnum_byte : ℕ → Bool
is_alnum_byte b =
    (leb b'a' b && leb b b'z') || ((leb b'A' b && leb b b'Z') || (leb b'0' b && leb b b'9'))

unfoldable pub is_safe_byte : ℕ → Bool
is_safe_byte b = (is_alnum_byte b || leb 0x80 b) || contains name_bare b

unfoldable pub is_double_byte : ℕ → Bool
is_double_byte b = is_alnum_byte b || (leb 0x80 b || contains name_double_quotable b)

-- The three flags that the first loop computes.
unfoldable pub is_safe_name : Bytes → Bool
is_safe_name [] = true
is_safe_name (b ∷ s) = is_safe_byte b && is_safe_name s

unfoldable pub has_single_quote : Bytes → Bool
has_single_quote [] = false
has_single_quote (b ∷ s) = (b == 39) || has_single_quote s

unfoldable pub is_double_quotable : Bytes → Bool
is_double_quotable [] = true
is_double_quotable (b ∷ s) = is_double_byte b && is_double_quotable s

unfoldable pub is_control : ℕ → Bool
is_control b = ltb b 0x20 || (b == 0x7f)

-- `fmt.Sprintf("\\%03o", b)` of a byte
unfoldable pub octal_escape : ℕ → Bytes
octal_escape b = 92 ∷ (48 + b / 64) ∷ (48 + b / 8 % 8) ∷ (48 + b % 8) ∷ []

unfoldable pub ansi_c_escape : ℕ → Bytes
unfolding octal_escape
ansi_c_escape b =
    if b == 7
    then 92 ∷ b'a' ∷ []
    else if b == 8
    then 92 ∷ b'b' ∷ []
    else if b == 9
    then 92 ∷ b't' ∷ []
    else if b == 10
    then 92 ∷ b'n' ∷ []
    else if b == 11
    then 92 ∷ b'v' ∷ []
    else if b == 12
    then 92 ∷ b'f' ∷ []
    else if b == 13
    then 92 ∷ b'r' ∷ []
    else octal_escape b

-- Where the second loop stands: `quoted` is in a quoted run, `pending` behind an escaped quote
-- (`pendingEmpty`), and `group` in the inner loop over control characters.
pub data Place : Type 0 where
  outside quoted pending group : Place

-- What is written before an escaped quote, before the escape of a control character, before another
-- byte, and at the end.
abbrev pub before_quote : Place → Bytes
before_quote outside = []
before_quote quoted = 39 ∷ []
before_quote pending = 39 ∷ 39 ∷ []
before_quote group = 39 ∷ []

abbrev pub before_control : Place → Bytes
before_control outside = b'$' ∷ 39 ∷ []
before_control quoted = 39 ∷ b'$' ∷ 39 ∷ []
before_control pending = 39 ∷ 39 ∷ b'$' ∷ 39 ∷ []
before_control group = []

abbrev pub before_other : Place → Bytes
before_other outside = 39 ∷ []
before_other quoted = []
before_other pending = 39 ∷ []
before_other group = 39 ∷ 39 ∷ []

abbrev pub at_end : Place → Bytes
at_end outside = []
at_end quoted = 39 ∷ []
at_end pending = 39 ∷ 39 ∷ []
at_end group = 39 ∷ []

unfoldable pub quote_loop : Place → Bytes → Bytes
quote_loop place [] = at_end place
quote_loop place (b ∷ s) =
    let quote = quote_loop pending s in
    let control = quote_loop group s in
    let other = quote_loop quoted s in
    if b == 39
    then before_quote place ++ 92 ∷ 39 ∷ quote
    else if is_control b
    then before_control place ++ (ansi_c_escape b ++ control)
    else before_other place ++ b ∷ other

unfoldable pub shell_quote_name : Bytes → Bytes
unfolding quote_loop
shell_quote_name [] = 39 ∷ 39 ∷ []
shell_quote_name (b ∷ s) =
    let name = b ∷ s in
    if is_safe_name name
    then name
    else if has_single_quote name && is_double_quotable name
    then 34 ∷ (name ++ 34 ∷ [])
    else quote_loop outside name

unfoldable pub quote_force_name : Bytes → Bytes
unfolding shell_quote_name
quote_force_name name =
    let quoted_name = shell_quote_name name in
    if bytes_eq quoted_name name then 39 ∷ (name ++ 39 ∷ []) else quoted_name

unfoldable pub locale_byte : ℕ → Bytes
unfolding octal_escape
locale_byte c =
    if c == 92
    then 92 ∷ 92 ∷ []
    else if c == 10
    then 92 ∷ b'n' ∷ []
    else if c == 9
    then 92 ∷ b't' ∷ []
    else if c == 13
    then 92 ∷ b'r' ∷ []
    else if ltb c 0x20 || (c == 0x7f)
    then octal_escape c
    else c ∷ []

unfoldable pub locale_bytes : Bytes → Bytes
unfolding locale_byte
locale_bytes [] = []
locale_bytes (c ∷ s) = locale_byte c ++ locale_bytes s

unfoldable pub quote_locale_name : Bytes → Bytes
unfolding locale_bytes
quote_locale_name value = 39 ∷ (locale_bytes value ++ 39 ∷ [])
