-- ===== src/Tr/Stream/Laws.antt =====
-- What the filters of tr.go write.
use ba.Base.{
  ℕ, ◌+◌, ◌-◌, ◌≡◌, refl, sym, true, false, not, ◌&&◌, [], ◌∷◌, Option, none, some, Bytes, arith,
  ltb, ◌==◌, if◌then◌else◌, length, get_or, map, select, contains, ap,
}
use mathlib.Core.Path.{fun_ext, ◌∙◌}
use ba.Tr.Sets.{Table, in_set}
use ba.Tr.Sets.Laws.{in_set-contains}
use ba.Tr.Stream.{
  is_last, delete_loop, run_delete, build_table, translate_loop, run_translate, squeeze_loop,
  run_squeeze_only,
}

delete_loop-select :
    (del sq : Table) (last : Option ℕ) (s : Bytes)
    → delete_loop del sq false last s ≡ select (λ b. not (del b)) s
unfolding delete_loop
delete_loop-select del sq last [] = refl
delete_loop-select del sq last (b ∷ s) =
    ground (arith, delete_loop-select del sq last s, delete_loop-select del sq (some b) s)

delete_loop-squeeze_loop :
    (del sq : Table) (last : Option ℕ) (s : Bytes)
    → delete_loop del sq true last s ≡ squeeze_loop sq last (select (λ b. not (del b)) s)
unfolding delete_loop squeeze_loop
delete_loop-squeeze_loop del sq last [] = refl
delete_loop-squeeze_loop del sq last (b ∷ s) =
    ground
      (arith, delete_loop-squeeze_loop del sq last s, delete_loop-squeeze_loop del sq (some b) s)

translate_loop-map :
    (mapped : Table) (tbl : ℕ → ℕ) (sq : Table) (last : Option ℕ) (s : Bytes)
    → translate_loop mapped tbl sq false last s ≡ map (λ b. if mapped b then tbl b else b) s
unfolding translate_loop
translate_loop-map mapped tbl sq last [] = refl
translate_loop-map mapped tbl sq last (b ∷ s) =
    ap (λ t. (if mapped b then tbl b else b) ∷ t) (translate_loop-map mapped tbl sq _ s)

translate_loop-squeeze_loop :
    (mapped : Table) (tbl : ℕ → ℕ) (sq : Table) (last : Option ℕ) (s : Bytes)
    → translate_loop mapped tbl sq true last s
      ≡ squeeze_loop sq last (map (λ b. if mapped b then tbl b else b) s)
unfolding translate_loop squeeze_loop
translate_loop-squeeze_loop mapped tbl sq last [] = refl
translate_loop-squeeze_loop mapped tbl sq last (b ∷ s) =
    let o = if mapped b then tbl b else b in
    ground (
      arith,
      translate_loop-squeeze_loop mapped tbl sq last s,
      translate_loop-squeeze_loop mapped tbl sq (some o) s,
    )

-- No two neighbours are the same member of the set; `last` stands before the first.
abbrev pub IsSqueezed : Table → Option ℕ → Bytes → Type 0
IsSqueezed sq last [] = Unit
IsSqueezed sq last (b ∷ s) = ((sq b && is_last last b) ≡ false) × IsSqueezed sq (some b) s

squeeze_loop-IsSqueezed :
    (sq : Table) (last : Option ℕ) (s : Bytes) → IsSqueezed sq last (squeeze_loop sq last s)
unfolding squeeze_loop
squeeze_loop-IsSqueezed sq last [] = tt
squeeze_loop-IsSqueezed sq last (b ∷ s) =
    ground (arith, squeeze_loop-IsSqueezed sq last s, squeeze_loop-IsSqueezed sq (some b) s)

squeeze_loop_id :
    (sq : Table) (last : Option ℕ) (s : Bytes) → IsSqueezed sq last s → squeeze_loop sq last s ≡ s
unfolding squeeze_loop
squeeze_loop_id sq last [] h = refl
squeeze_loop_id sq last (b ∷ s) h = ground (arith, squeeze_loop_id sq (some b) s h.1)

-- `tr -d SET1`: exactly the bytes outside SET1, in order.
pub run_delete-select :
    (s set1 set2 : Bytes) → run_delete s set1 false set2 ≡ select (λ b. not (contains set1 b)) s
unfolding run_delete
run_delete-select s set1 set2 =
    rw (← fun_ext (in_set-contains set1)) (delete_loop-select (in_set set1) (in_set set2) none s)

-- `tr -d -s SET1 SET2` is `tr -d SET1` followed by `tr -s SET2`.
pub run_delete-run_squeeze_only :
    (s set1 set2 : Bytes)
    → run_delete s set1 true set2 ≡ run_squeeze_only (run_delete s set1 false set2) set2
unfolding run_delete run_squeeze_only
run_delete-run_squeeze_only s set1 set2 =
    delete_loop-squeeze_loop (in_set set1) (in_set set2) none s
    ∙ ap (squeeze_loop (in_set set2) none)
        (sym (delete_loop-select (in_set set1) (in_set set2) none s))

-- `tr -s SET1 SET2` is `tr SET1 SET2` followed by `tr -s SET2`.
pub run_translate-run_squeeze_only :
    (s set1 set2 : Bytes)
    → run_translate s set1 set2 true ≡ run_squeeze_only (run_translate s set1 set2 false) set2
unfolding run_translate run_squeeze_only
run_translate-run_squeeze_only s set1 set2 =
    let m = in_set set1 in
    let t = build_table set1 0 set2 (λ c. c) in
    let q = in_set set2 in
    translate_loop-squeeze_loop m t q none s
    ∙ ap (squeeze_loop q none) (sym (translate_loop-map m t q none s))

-- The output of `tr -s SET` has no two equal neighbours in SET, and squeezing it again changes nothing.
pub run_squeeze_only-IsSqueezed :
    (s set1 : Bytes)
    → IsSqueezed (in_set set1) none (run_squeeze_only s set1)
      × (run_squeeze_only (run_squeeze_only s set1) set1 ≡ run_squeeze_only s set1)
unfolding run_squeeze_only
run_squeeze_only-IsSqueezed s set1 =
    let h = squeeze_loop-IsSqueezed (in_set set1) none s in
    (h, squeeze_loop_id (in_set set1) none _ h)

-- The index in SET1 of the last occurrence of a byte, counted from `i`.
abbrev pub last_index : Bytes → ℕ → ℕ → Option ℕ
last_index [] i c = none
last_index (b ∷ set1) i c = elim (last_index set1 (i + 1) c) [
  | some j ↦ some j
  | none ↦ if c == b then some i else none
]

-- The byte of SET2 for index `i`: past the end, the last one.
abbrev pub padded : Bytes → ℕ → ℕ
padded set2 i = if ltb i (length set2) then get_or set2 i 0 else get_or set2 (length set2 - 1) 0

abbrev pub image : Option ℕ → Bytes → ℕ → ℕ
image none set2 d = d
image (some i) set2 d = padded set2 i

build_table-image :
    (set1 : Bytes) (i : ℕ) (set2 : Bytes) (tbl : ℕ → ℕ) (c : ℕ)
    → build_table set1 i set2 tbl c ≡ image (last_index set1 i c) set2 (tbl c)
unfolding build_table
build_table-image [] i set2 tbl c = refl
build_table-image (b ∷ set1) i set2 tbl c =
    build_table-image set1 (i + 1) set2 _ c ∙ step (last_index set1 (i + 1) c)
  where
    v : ℕ
    v = padded set2 i

    step :
        (o : Option ℕ)
        → image o set2 (if c == b then v else tbl c)
          ≡ image (elim o [ some j ↦ some j | none ↦ if c == b then some i else none ]) set2 (tbl c)
    step none = ground arith
    step (some j) = refl

last_index-contains :
    (set1 : Bytes) (i c : ℕ) → contains set1 c ≡ false → last_index set1 i c ≡ none
last_index-contains [] i c h = refl
last_index-contains (b ∷ set1) i c h = ground (arith, last_index-contains set1 (i + 1) c)

-- `tr SET1 SET2`: every byte by itself. A byte of SET1 becomes the byte of SET2 at the index of its
-- last occurrence in SET1, or SET2's last byte if SET2 is shorter; any other byte is copied.
pub run_translate-map :
    (s set1 set2 : Bytes)
    → run_translate s set1 set2 false ≡ map (λ b. image (last_index set1 0 b) set2 b) s
unfolding run_translate
run_translate-map s set1 set2 =
    translate_loop-map (in_set set1) (build_table set1 0 set2 (λ c. c)) (in_set set2) none s
    ∙ ap (λ f. map f s) (fun_ext pointwise)
  where
    pointwise :
        (b : ℕ)
        → (if in_set set1 b then build_table set1 0 set2 (λ c. c) b else b)
          ≡ image (last_index set1 0 b) set2 b
    pointwise b = ground (
      arith,
      in_set-contains set1 b,
      build_table-image set1 0 set2 (λ c. c) b,
      last_index-contains set1 0 b,
    )
