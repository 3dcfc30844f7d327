-- ===== src/Uniq/Key.antt =====
-- The closure `key` of `cmdUniq`, and `uniqSkipFields`: the part of a line that is compared.
use ba.Base.{
  ℕ, zero, suc, Bool, ◌||◌, [], ◌∷◌, Option, none, some, Bytes, ltb, ◌==◌, if◌then◌else◌, length,
  take, drop,
}

abbrev pub is_blank : ℕ → Bool
is_blank c = (c == 32) || (c == 9)

unfoldable pub skip_blanks : Bytes → Bytes
skip_blanks [] = []
skip_blanks (c ∷ s) = if is_blank c then skip_blanks s else c ∷ s

unfoldable pub skip_word : Bytes → Bytes
skip_word [] = []
skip_word (c ∷ s) = if is_blank c then c ∷ s else skip_word s

unfoldable pub skip_fields : Bytes → ℕ → Bytes
unfolding skip_blanks skip_word
skip_fields s zero = s
skip_fields s (suc n) = skip_fields (skip_word (skip_blanks s)) n

-- `lower` is `strings.ToLower`, whose tables are those of Unicode.
unfoldable pub key : (Bytes → Bytes) → ℕ → ℕ → Option ℕ → Bool → Bytes → Bytes
unfolding skip_fields
key lower fields chars check ignore_case line =
    let skipped = if ltb 0 fields then skip_fields line fields else line in
    let rest =
      if ltb 0 chars
      then (if ltb chars (length skipped) then drop chars skipped else [])
      else skipped in
    let cut = limit check rest in if ignore_case then lower cut else cut
  where
    limit : Option ℕ → Bytes → Bytes
    limit none s = s
    limit (some n) s = if ltb n (length s) then take n s else s
