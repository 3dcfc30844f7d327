-- ===== src/Tr/Stream.antt =====
-- The filters of tr.go: runDelete, runTranslate, runSqueezeOnly. A filter is the list of the bytes
-- that it writes; `last` is `none` for the -1 of the source.
pub mod Laws
use ba.Base.{
  ℕ, zero, suc, ◌+◌, ◌-◌, Bool, true, false, ◌&&◌, List, [], ◌∷◌, Option, none, some, Bytes, ltb,
  ◌==◌, if◌then◌else◌, length, get_or,
}
use ba.Tr.Sets.{Table, in_set}

-- `int(b) == last`
abbrev pub is_last : Option ℕ → ℕ → Bool
is_last none b = false
is_last (some l) b = b == l

unfoldable pub delete_loop : Table → Table → Bool → Option ℕ → Bytes → Bytes
delete_loop del_tbl sq_tbl squeeze last [] = []
delete_loop del_tbl sq_tbl squeeze last (b ∷ s) =
    let skip = delete_loop del_tbl sq_tbl squeeze last s in
    let keep = b ∷ delete_loop del_tbl sq_tbl squeeze (some b) s in
    if del_tbl b then skip else if squeeze && sq_tbl b && is_last last b then skip else keep

unfoldable pub run_delete : Bytes → Bytes → Bool → Bytes → Bytes
unfolding delete_loop
run_delete s set1 squeeze set2 = delete_loop (in_set set1) (in_set set2) squeeze none s

-- `for i, b := range set1`: the last occurrence of a byte wins, and SET2's last byte pads SET2.
unfoldable pub build_table : Bytes → ℕ → Bytes → (ℕ → ℕ) → ℕ → ℕ
build_table [] i set2 tbl c = tbl c
build_table (b ∷ set1) i set2 tbl c =
    let v = if ltb i (length set2) then get_or set2 i 0 else get_or set2 (length set2 - 1) 0 in
    build_table set1 (i + 1) set2 (λ d. if d == b then v else tbl d) c

unfoldable pub translate_loop : Table → (ℕ → ℕ) → Table → Bool → Option ℕ → Bytes → Bytes
translate_loop mapped tbl sq_tbl squeeze last [] = []
translate_loop mapped tbl sq_tbl squeeze last (b ∷ s) =
    let o = if mapped b then tbl b else b in
    let skip = translate_loop mapped tbl sq_tbl squeeze last s in
    let keep = o ∷ translate_loop mapped tbl sq_tbl squeeze (some o) s in
    if squeeze && sq_tbl o && is_last last o then skip else keep

unfoldable pub run_translate : Bytes → Bytes → Bytes → Bool → Bytes
unfolding translate_loop build_table
run_translate s set1 set2 squeeze =
    translate_loop (in_set set1) (build_table set1 0 set2 (λ c. c)) (in_set set2) squeeze none s

unfoldable pub squeeze_loop : Table → Option ℕ → Bytes → Bytes
squeeze_loop sq_tbl last [] = []
squeeze_loop sq_tbl last (b ∷ s) =
    let skip = squeeze_loop sq_tbl last s in
    let keep = b ∷ squeeze_loop sq_tbl (some b) s in
    if sq_tbl b && is_last last b then skip else keep

unfoldable pub run_squeeze_only : Bytes → Bytes → Bytes
unfolding squeeze_loop
run_squeeze_only s set1 = squeeze_loop (in_set set1) none s
