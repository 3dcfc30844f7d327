-- ===== src/Util/Options.antt =====
-- `expandShortOptions` of util.go: clusters of short options as separate arguments.
use ba.Base.{
  ℕ, ◌+◌, ◌/◌, ◌%◌, Bool, false, not, ◌&&◌, List, [], ◌∷◌, ◌++◌, Bytes, codes, ◌==◌, if◌then◌else◌,
  contains, bytes_eq, length, ltb, ◌≡◌, refl, ap, All, arith,
}

-- `"-"+string(arg[j])`; a byte from 0x80 on becomes two bytes of UTF-8.
unfoldable pub short_option : ℕ → Bytes
short_option c = if ltb c 128 then b'-' ∷ c ∷ [] else b'-' ∷ (192 + c / 64) ∷ (128 + c % 64) ∷ []

-- The loop over the letters of a cluster.
unfoldable pub expand_letters : Bytes → Bytes → List Bytes
unfolding short_option
expand_letters with_value [] = []
expand_letters with_value (c ∷ s) =
    let rest = expand_letters with_value s in
    short_option c
    ∷ (if contains with_value c then (if ltb 0 (length s) then s ∷ [] else []) else rest)

-- `len(arg) < 3 || arg[0] != '-' || arg[1] == '-'`
unfoldable pub is_cluster : Bytes → Bool
is_cluster [] = false
is_cluster (a ∷ []) = false
is_cluster (a ∷ b ∷ []) = false
is_cluster (a ∷ b ∷ c ∷ s) = (a == b'-') && not (b == b'-')

unfoldable pub expand_arg : Bytes → Bytes → List Bytes
unfolding is_cluster expand_letters
expand_arg with_value [] = [] ∷ []
expand_arg with_value (a ∷ s) =
    if is_cluster (a ∷ s) then expand_letters with_value s else (a ∷ s) ∷ []

unfoldable pub expand_short_options : List Bytes → Bytes → List Bytes
unfolding expand_arg
expand_short_options [] with_value = []
expand_short_options (arg ∷ args) with_value =
    let rest = expand_arg with_value arg ++ expand_short_options args with_value in
    if bytes_eq arg (codes "--") then arg ∷ args else rest

-- Arguments that are no clusters pass through untouched, and so does all that follows `--`.
pub expand_short_options-id :
    (args tail : List Bytes) (with_value : Bytes)
    → All (λ arg. (is_cluster arg ≡ false) × (bytes_eq arg (codes "--") ≡ false)) args
    → expand_short_options (args ++ codes "--" ∷ tail) with_value ≡ args ++ codes "--" ∷ tail
unfolding expand_short_options
expand_short_options-id [] tail with_value h = refl
expand_short_options-id ([] ∷ args) tail with_value (h, hs) =
    ap (λ t. [] ∷ t) (expand_short_options-id args tail with_value hs)
expand_short_options-id ((a ∷ s) ∷ args) tail with_value ((c, d), hs) =
    ground (arith, expand_short_options-id args tail with_value hs)
