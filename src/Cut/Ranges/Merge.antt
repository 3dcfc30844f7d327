-- ===== src/Cut/Ranges/Merge.antt =====
-- mergeRanges: the result is sorted, with gaps, and covers the same positions.
use ba.Base.{
  Bool-cases, ltb, ◌==◌, ℕ, ◌+◌, ◌≤◌, ◌≡◌, refl, ◌∙◌, inl, inr, Bool, true, ◌||◌, List, [], ◌∷◌,
  arith, All, if◌then◌else◌,
}
use ba.Base.Int64.{max_int, slt, slt-eq-ltb, add64-eq-add}
use ba.Cut.Ranges.{
  Range, sink, sort_loop, rev_onto, fold_into, merge_into, merge_loop, merge_ranges, in_ranges,
  covers,
}
use ba.Cut.Ranges.Valid.{IsRange, IsMerged, covers-leb}

-- From `b` down by `lo`, and from `b` up.
abbrev IsDesc : ℕ → List Range → Type 0
IsDesc b [] = Unit
IsDesc b (r ∷ rs) = IsRange r × (r.lo ≤ b) × IsDesc r.lo rs

abbrev IsAsc : ℕ → List Range → Type 0
IsAsc b [] = Unit
IsAsc b (r ∷ rs) = IsRange r × (b ≤ r.lo) × IsAsc r.lo rs

sink-IsDesc :
    (b : ℕ) (x : Range) (ys : List Range)
    → IsRange x
    → x.lo ≤ b
    → IsDesc b ys
    → IsDesc b (sink x ys)
unfolding sink
sink-IsDesc b x [] v h d = (v, h, tt)
sink-IsDesc b x (y ∷ ys) v h (vy, hy, d) =
    rw (slt-eq-ltb x.lo y.lo (omega arith) (omega arith)) (ground (arith, sink-IsDesc y.lo x ys))

swap :
    (a b c : Bool)
    → (if b then true else (if a then true else c)) ≡ (if a then true else (if b then true else c))
swap a b c = ground arith

in_ranges-sink :
    (pos : ℕ) (x : Range) (ys : List Range) → in_ranges pos (sink x ys) ≡ in_ranges pos (x ∷ ys)
unfolding sink in_ranges
in_ranges-sink pos x [] = refl
in_ranges-sink pos x (y ∷ ys) = elim (Bool-cases (slt x.lo y.lo)) [
  | inl e ↦ rw (e, in_ranges-sink pos x ys) (swap (covers x pos) (covers y pos) (in_ranges pos ys))
  | inr e ↦ rw e
]

sort_loop-IsDesc :
    (b : ℕ) (done rs : List Range)
    → All (λ r. IsRange r × (r.lo ≤ b)) rs
    → IsDesc b done
    → IsDesc b (sort_loop done rs)
unfolding sort_loop
sort_loop-IsDesc b done [] h d = d
sort_loop-IsDesc b done (r ∷ rs) ((v, le), h) d =
    sort_loop-IsDesc b (sink r done) rs h (sink-IsDesc b r done v le d)

-- Either list covers the position.
abbrev pub either : Bool → Bool → Bool
either a b = if a then true else b

in_ranges-sort_loop :
    (pos : ℕ) (done rs : List Range)
    → in_ranges pos (sort_loop done rs) ≡ either (in_ranges pos rs) (in_ranges pos done)
unfolding sort_loop
in_ranges-sort_loop pos done [] = unfold in_ranges in refl
in_ranges-sort_loop pos done (r ∷ rs) =
    in_ranges-sort_loop pos (sink r done) rs
    ∙ rw (in_ranges-sink pos r done)
        (unfold in_ranges in mix (in_ranges pos rs) (covers r pos) (in_ranges pos done))
  where
    mix : (a b c : Bool) → either a (either b c) ≡ either (either b a) c
    mix a b c = ground arith

rev_onto-IsAsc :
    (b : ℕ) (rs acc : List Range) → IsDesc b rs → IsAsc b acc → IsAsc 0 (rev_onto rs acc)
unfolding rev_onto
rev_onto-IsAsc b [] [] d a = tt
rev_onto-IsAsc b [] (r ∷ acc) d (v, le, a) = (v, omega arith, a)
rev_onto-IsAsc b (r ∷ rs) [] (v, le, d) a = rev_onto-IsAsc r.lo rs (r ∷ []) d (v, omega arith, tt)
rev_onto-IsAsc b (r ∷ rs) (q ∷ acc) (v, le, d) (w, le', a) =
    rev_onto-IsAsc r.lo rs (r ∷ q ∷ acc) d (v, omega arith, (w, omega arith, a))

in_ranges-rev_onto :
    (pos : ℕ) (rs acc : List Range)
    → in_ranges pos (rev_onto rs acc) ≡ either (in_ranges pos rs) (in_ranges pos acc)
unfolding rev_onto
in_ranges-rev_onto pos [] acc = unfold in_ranges in refl
in_ranges-rev_onto pos (r ∷ rs) acc =
    in_ranges-rev_onto pos rs (r ∷ acc)
    ∙ unfold in_ranges in mix (in_ranges pos rs) (covers r pos) (in_ranges pos acc)
  where
    mix : (a b c : Bool) → either a (either b c) ≡ either (either b a) c
    mix a b c = ground arith

-- Every range starts at `c` or before.
abbrev StartsBy : ℕ → List Range → Type 0
StartsBy c [] = Unit
StartsBy c (r ∷ rs) = (r.lo ≤ c) × StartsBy c rs

StartsBy-mono : (c d : ℕ) (rs : List Range) → c ≤ d → StartsBy c rs → StartsBy d rs
StartsBy-mono c d [] h s = tt
StartsBy-mono c d (r ∷ rs) h (le, s) = (omega arith, StartsBy-mono c d rs h s)

-- `foldInto` with its tests on numbers.
abbrev fold_plain : Range → Range → List Range
fold_plain last r =
    if last.hi == 0
    then last ∷ []
    else if ltb (last.hi + 1) r.lo
    then last ∷ r ∷ []
    else if (r.hi == 0) || ltb last.hi r.hi
    then record last { hi = r.hi } ∷ []
    else last ∷ []

fold_into-plain : (last r : Range) → IsRange last → IsRange r → fold_into last r ≡ fold_plain last r
unfolding fold_into
fold_into-plain last r vl v = rw (
  add64-eq-add last.hi 1 (omega arith),
  slt-eq-ltb (last.hi + 1) r.lo (omega arith) (omega arith),
  slt-eq-ltb last.hi r.hi (omega arith) (omega arith),
)

fold_into-IsMerged :
    (b : ℕ) (last r : Range)
    → IsMerged b (last ∷ [])
    → IsRange r
    → last.lo ≤ r.lo
    → IsMerged b (fold_into last r) × StartsBy r.lo (fold_into last r)
fold_into-IsMerged b last r (vl, hb, o) v le = rw (fold_into-plain last r vl v) (ground arith)

in_ranges-fold_into :
    (pos : ℕ) (last r : Range)
    → pos ≤ max_int
    → IsRange last
    → IsRange r
    → last.lo ≤ r.lo
    → in_ranges pos (fold_into last r) ≡ either (covers last pos) (covers r pos)
in_ranges-fold_into pos last r hp vl v le = rw (fold_into-plain last r vl v) (
    unfold in_ranges in
    ground (
      arith,
      covers-leb last pos vl hp,
      covers-leb r pos v hp,
      covers-leb (record last { hi = r.hi }) pos,
    ))

merge_into-IsMerged :
    (b : ℕ) (m : List Range) (r : Range)
    → IsMerged b m
    → StartsBy r.lo m
    → IsRange r
    → b ≤ r.lo
    → IsMerged b (merge_into m r) × StartsBy r.lo (merge_into m r)
unfolding merge_into
merge_into-IsMerged b [] r h s v le = ground arith
merge_into-IsMerged b (last ∷ []) r h s v le = fold_into-IsMerged b last r h v s.0
merge_into-IsMerged b (q ∷ q' ∷ qs) r (vq, hb, inl (e, no_more)) s v le = absurd (cc)
merge_into-IsMerged b (q ∷ q' ∷ qs) r (vq, hb, inr (o, h)) (sq, s) v le =
    let (h', s') = merge_into-IsMerged (q.hi + 2) (q' ∷ qs) r h s v (omega arith) in
    ((vq, hb, inr (o, h')), (sq, s'))

in_ranges-merge_into :
    (pos b : ℕ) (m : List Range) (r : Range)
    → pos ≤ max_int
    → IsMerged b m
    → StartsBy r.lo m
    → IsRange r
    → in_ranges pos (merge_into m r) ≡ either (in_ranges pos m) (covers r pos)
unfolding merge_into in_ranges
in_ranges-merge_into pos b [] r hp h s v = ground arith
in_ranges-merge_into pos b (last ∷ []) r hp h s v =
    in_ranges-fold_into pos last r hp h.0 v s.0 ∙ ground arith
in_ranges-merge_into pos b (q ∷ q' ∷ qs) r hp (vq, hb, inl (e, no_more)) s v = absurd (cc)
in_ranges-merge_into pos b (q ∷ q' ∷ qs) r hp (vq, hb, inr (o, h)) (sq, s) v =
    ground (arith, in_ranges-merge_into pos (q.hi + 2) (q' ∷ qs) r hp h s v)

merge_loop-IsMerged :
    (b c : ℕ) (m rs : List Range)
    → IsMerged b m
    → StartsBy c m
    → b ≤ c
    → IsAsc c rs
    → IsMerged b (merge_loop m rs)
unfolding merge_loop
merge_loop-IsMerged b c m [] h s hb a = h
merge_loop-IsMerged b c m (r ∷ rs) h s hb (v, le, a) =
    let (h', s') = merge_into-IsMerged b m r h (StartsBy-mono c r.lo m le s) v (omega arith) in
    merge_loop-IsMerged b r.lo (merge_into m r) rs h' s' (omega arith) a

in_ranges-merge_loop :
    (pos b c : ℕ) (m rs : List Range)
    → pos ≤ max_int
    → IsMerged b m
    → StartsBy c m
    → b ≤ c
    → IsAsc c rs
    → in_ranges pos (merge_loop m rs) ≡ either (in_ranges pos m) (in_ranges pos rs)
unfolding merge_loop
in_ranges-merge_loop pos b c m [] hp h s hb a = unfold in_ranges in ground arith
in_ranges-merge_loop pos b c m (r ∷ rs) hp h s hb (v, le, a) =
    let s0 = StartsBy-mono c r.lo m le s in
    let (h', s') = merge_into-IsMerged b m r h s0 v (omega arith) in
    in_ranges-merge_loop pos b r.lo (merge_into m r) rs hp h' s' (omega arith) a
    ∙ rw (in_ranges-merge_into pos b m r hp h s0 v)
        (unfold in_ranges in assoc (in_ranges pos m) (covers r pos) (in_ranges pos rs))
  where
    assoc : (x y z : Bool) → either (either x y) z ≡ either x (either y z)
    assoc x y z = ground arith

All-below : (rs : List Range) → All IsRange rs → All (λ r. IsRange r × (r.lo ≤ max_int)) rs
All-below [] h = tt
All-below (r ∷ rs) (v, h) = ((v, omega arith), All-below rs h)

sorted-IsAsc : (rs : List Range) → All IsRange rs → IsAsc 0 (rev_onto (sort_loop [] rs) [])
sorted-IsAsc rs h =
    rev_onto-IsAsc max_int (sort_loop [] rs) [] (sort_loop-IsDesc max_int [] rs (All-below rs h) tt)
      tt

IsAsc-one : (rs : List Range) → IsAsc 0 rs → IsAsc 1 rs
IsAsc-one [] h = tt
IsAsc-one (r ∷ rs) (v, le, h) = (v, omega arith, h)

-- `mergeRanges`, for ranges that end below the largest `int`: the result ascends, a gap lies between
-- any two of its ranges, only the last can be open, and it covers exactly the positions that the
-- given list covers.
pub merge_ranges-IsMerged :
    (rs : List Range)
    → All IsRange rs
    → IsMerged 1 (merge_ranges rs)
      × ((pos : ℕ) → pos ≤ max_int → in_ranges pos (merge_ranges rs) ≡ in_ranges pos rs)
unfolding merge_ranges in_ranges
merge_ranges-IsMerged rs h = (
  merge_loop-IsMerged 1 1 [] sorted tt tt (omega arith) asc,
  λ pos hp.
      in_ranges-merge_loop pos 1 1 [] sorted hp tt tt (omega arith) asc
      ∙ (in_ranges-rev_onto pos (sort_loop [] rs) []
          ∙ (rw (in_ranges-sort_loop pos [] rs) (ground arith))),
)
  where
    sorted : List Range
    sorted = rev_onto (sort_loop [] rs) []

    asc : IsAsc 1 sorted
    asc = IsAsc-one sorted (sorted-IsAsc rs h)
