-- ===== src/Util/Quote/Examples.antt =====
-- Quoted names, and the theorems about them at concrete names.
use ba.Base.{◌≡◌, refl, some, ◌∷◌, ◌++◌, Bytes, codes}
use ba.Util.Quote.{
  is_alnum_byte, is_safe_byte, ansi_c_escape, is_control, is_safe_name, has_single_quote,
  is_double_quotable, is_double_byte, shell_quote_name, quote_force_name, quote_locale_name,
}
use ba.Util.Quote.Shell.{bare, read_word}
use ba.Util.Quote.Force.{read_word-quote_force_name}
use ba.Util.Quote.Laws.{read_word-shell_quote_name}

abbrev odd : Bytes
odd = codes "a'" ++ (1 ∷ 10 ∷ codes "b;'")

quoted_odd : shell_quote_name odd ≡ codes "'a'\\'''$'\\001\\n''b;'\\'''"
unfolding shell_quote_name quote_force_name quote_locale_name is_safe_byte is_alnum_byte
    ansi_c_escape is_control is_safe_name has_single_quote is_double_quotable is_double_byte
quoted_odd = refl

forced : quote_force_name (codes "plain") ≡ codes "'plain'"
unfolding shell_quote_name quote_force_name quote_locale_name is_safe_byte is_alnum_byte
    ansi_c_escape is_control is_safe_name has_single_quote is_double_quotable is_double_byte
forced = refl

-- A shell would expand this word.
tilde : shell_quote_name (codes "~root") ≡ codes "~root"
unfolding shell_quote_name quote_force_name quote_locale_name is_safe_byte is_alnum_byte
    ansi_c_escape is_control is_safe_name has_single_quote is_double_quotable is_double_byte
tilde = refl

located : quote_locale_name (codes "a\\\tb") ≡ codes "'a\\\\\\tb'"
unfolding shell_quote_name quote_force_name quote_locale_name is_safe_byte is_alnum_byte
    ansi_c_escape is_control is_safe_name has_single_quote is_double_quotable is_double_byte
located = refl

read_word-shell_quote_name_example : read_word bare (shell_quote_name odd) ≡ some odd
read_word-shell_quote_name_example = read_word-shell_quote_name odd

read_word-quote_force_name_example :
    read_word bare (quote_force_name (codes "plain")) ≡ some (codes "plain")
read_word-quote_force_name_example = read_word-quote_force_name (codes "plain")
