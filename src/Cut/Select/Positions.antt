-- ===== src/Cut/Select/Positions.antt =====
-- The pieces of a merged list, one after the other, are the units at the covered positions.
use ba.Base.{
  ◌≢◌, ◌⊎◌, ℕ, zero, suc, ◌+◌, ◌-◌, ◌≤◌, ◌<◌, ◌≡◌, refl, sym, ap, ◌∙◌, inl, inr, true, false, List,
  [], ◌∷◌, ◌++◌, append_assoc, append-nil, Bytes, arith, if◌then◌else◌, ◌==◌, length, take, drop,
  concat, concat-append, length-drop, drop_all, take_all, take-nil,
}
use ba.Base.Int64.{max_int, slt-eq-ltb}
use ba.Base.Split.{join}
use ba.Cut.Ranges.{Range, in_ranges}
use ba.Cut.Ranges.Valid.{IsRange, IsMerged, covers-leb}
use ba.Cut.Ranges.Complement.{in_ranges-below, IsMerged-mono}
use ba.Cut.Select.{piece, push, pieces, cut_positions, pick}

module _ {A : Type 0} (rs : List Range) where
  pick_none :
      (k : ℕ) (xs : List A)
      → ((pos : ℕ) → k ≤ pos → pos < k + length xs → in_ranges pos rs ≡ false)
      → pick rs k xs ≡ []
  unfolding pick
  pick_none k [] h = refl
  pick_none k (x ∷ xs) h =
      rw (h k (omega arith) (omega arith))
        (pick_none (k + 1) xs λ pos a b. h pos (omega arith) (omega arith))

  pub pick_all :
      (k : ℕ) (xs : List A)
      → ((pos : ℕ) → k ≤ pos → pos < k + length xs → in_ranges pos rs ≡ true)
      → pick rs k xs ≡ xs
  unfolding pick
  pick_all k [] h = refl
  pick_all k (x ∷ xs) h =
      rw (h k (omega arith) (omega arith))
        (ap (λ t. x ∷ t) (pick_all (k + 1) xs λ pos a b. h pos (omega arith) (omega arith)))

  pick_ext :
      (qs : List Range) (k : ℕ) (xs : List A)
      → ((pos : ℕ) → k ≤ pos → pos < k + length xs → in_ranges pos rs ≡ in_ranges pos qs)
      → pick rs k xs ≡ pick qs k xs
  unfolding pick
  pick_ext qs k [] h = refl
  pick_ext qs k (x ∷ xs) h = rw (
    h k (omega arith) (omega arith),
    pick_ext qs (k + 1) xs λ pos a b. h pos (omega arith) (omega arith),
  )

module _ {A : Type 0} (rs : List Range) where
  skip_one :
      (k c : ℕ) (xs : List A)
      → in_ranges k rs ≡ false
      → pick rs k (drop c xs) ≡ pick rs (k + 1) (drop (suc c) xs)
  unfolding pick
  skip_one k zero [] h = refl
  skip_one k zero (x ∷ xs) h = rw h
  skip_one k (suc c) [] h = refl
  skip_one k (suc c) (x ∷ xs) h = skip_one k c xs h

  -- `n` positions that are not covered, behind the first `c`
  skip :
      (n c : ℕ) (xs : List A)
      → ((pos : ℕ) → c < pos → pos ≤ c + n → in_ranges pos rs ≡ false)
      → pick rs (c + 1) (drop c xs) ≡ pick rs (c + n + 1) (drop (c + n) xs)
  skip zero c xs h = let e : c + 0 ≡ c = omega arith in rw e
  skip (suc n) c xs h =
      let e : c + suc n ≡ suc c + n = omega arith in
      let f : c + 1 ≡ suc c = omega arith in
      skip_one (c + 1) c xs (h (c + 1) (omega arith) (omega arith))
      ∙ rw (e, f) (skip n (suc c) xs λ pos a b. h pos (omega arith) (omega arith))

  keep_one :
      (k c : ℕ) (xs : List A)
      → in_ranges k rs ≡ true
      → pick rs k (drop c xs) ≡ take 1 (drop c xs) ++ pick rs (k + 1) (drop (suc c) xs)
  unfolding pick
  keep_one k zero [] h = refl
  keep_one k zero (x ∷ xs) h = rw h
  keep_one k (suc c) [] h = refl
  keep_one k (suc c) (x ∷ xs) h = keep_one k c xs h

  take-suc-drop :
      (n c : ℕ) (xs : List A)
      → take (suc n) (drop c xs) ≡ take 1 (drop c xs) ++ take n (drop (suc c) xs)
  take-suc-drop n zero [] = sym (take-nil n)
  take-suc-drop n zero (x ∷ xs) = refl
  take-suc-drop n (suc c) [] = sym (take-nil n)
  take-suc-drop n (suc c) (x ∷ xs) = take-suc-drop n c xs

  -- `n` positions that are covered, behind the first `c`
  keep :
      (n c : ℕ) (xs : List A)
      → ((pos : ℕ) → c < pos → pos ≤ c + n → in_ranges pos rs ≡ true)
      → pick rs (c + 1) (drop c xs) ≡ take n (drop c xs) ++ pick rs (c + n + 1) (drop (c + n) xs)
  keep zero c xs h = let e : c + 0 ≡ c = omega arith in rw e
  keep (suc n) c xs h =
      let e : c + suc n ≡ suc c + n = omega arith in
      let f : c + 1 ≡ suc c = omega arith in
      keep_one (c + 1) c xs (h (c + 1) (omega arith) (omega arith))
      ∙ rw (e, take-suc-drop n c xs, append_assoc, f)
          (ap (λ t. take 1 (drop c xs) ++ t)
            (keep n (suc c) xs λ pos a b. h pos (omega arith) (omega arith)))

-- The number of units that a range keeps, at most.
abbrev width : Range → ℕ → ℕ
width r n = if r.hi == 0 then n else r.hi - (r.lo - 1)

concat-push :
    (units : List Bytes) (r : Range) (ps : List Bytes)
    → IsRange r
    → length units ≤ max_int
    → concat (push (piece units r) ps)
      ≡ concat (take (width r (length units)) (drop (r.lo - 1) units)) ++ concat ps
unfolding push piece
concat-push units r ps v fits =
    let n = length units in
    let rest = drop (r.lo - 1) units in
    ground (
      arith,
      slt-eq-ltb n r.hi fits (omega arith),
      slt-eq-ltb n r.lo fits (omega arith),
      slt-eq-ltb n r.lo fits (omega arith),
      slt-eq-ltb r.hi r.lo (omega arith) (omega arith),
      length-drop (r.lo - 1) units,
      take_all (n - (r.lo - 1)) rest,
      take_all n rest,
      take_all (r.hi - (r.lo - 1)) rest,
      drop_all (r.lo - 1) units,
    )

module _ (r : Range) (rs : List Range) (v : IsRange r) where
  covered :
      (pos : ℕ)
      → r.lo ≤ pos
      → pos ≤ max_int
      → (r.hi ≡ 0) ⊎ (pos ≤ r.hi)
      → in_ranges pos (r ∷ rs) ≡ true
  unfolding in_ranges
  covered pos a hp o = ground (arith, covers-leb r pos v hp)

  behind :
      (pos : ℕ) → r.hi ≢ 0 → r.hi < pos → pos ≤ max_int → in_ranges pos (r ∷ rs) ≡ in_ranges pos rs
  unfolding in_ranges
  behind pos n a hp = ground (arith, covers-leb r pos v hp)

  -- Up to the begin of the first range nothing is kept.
  reach :
      (c d : ℕ) (units : List Bytes)
      → IsMerged r.lo (r ∷ rs)
      → c ≤ d
      → d + 1 ≡ r.lo
      → pick (r ∷ rs) (c + 1) (drop c units) ≡ pick (r ∷ rs) (d + 1) (drop d units)
  reach c d units m le e =
      let s =
        skip (r ∷ rs) (d - c) c units
          λ pos a b. in_ranges-below r.lo pos (r ∷ rs) m (omega arith) (omega arith) in
      let f : c + (d - c) ≡ d = omega arith in rw f at s

  open_tail :
      (d : ℕ) (units : List Bytes)
      → r.hi ≡ 0
      → d + 1 ≡ r.lo
      → length units < max_int
      → pick (r ∷ rs) (d + 1) (drop d units) ≡ drop d units
  open_tail d units o e fits =
      pick_all (r ∷ rs) (d + 1) (drop d units)
        λ pos a b. covered pos (omega arith) (omega (arith, length-drop d units)) (inl o)

  -- From the begin of a closed range on: its units, and what the other ranges keep behind it.
  closed :
      (d : ℕ) (units : List Bytes)
      → r.lo ≤ r.hi
      → d + 1 ≡ r.lo
      → length units < max_int
      → pick (r ∷ rs) (d + 1) (drop d units)
        ≡ take (r.hi - d) (drop d units) ++ pick rs (r.hi + 1) (drop r.hi units)
  closed d units o e fits =
      let k =
        keep (r ∷ rs) (r.hi - d) d units
          λ pos a b. covered pos (omega arith) (omega arith) (inr (omega arith)) in
      let f : d + (r.hi - d) ≡ r.hi = omega arith in
      let k' = rw f at k in
      k'
      ∙ ap (λ t. take (r.hi - d) (drop d units) ++ t)
          (pick_ext (r ∷ rs) rs (r.hi + 1) (drop r.hi units) λ pos a b.
            behind pos (omega arith) (omega arith) (omega (arith, length-drop r.hi units)))

-- The walk behind the first `c` units.
pieces-pick :
    (units : List Bytes) (c : ℕ) (rs : List Range)
    → length units < max_int
    → IsMerged (c + 1) rs
    → concat (pieces units rs) ≡ concat (pick rs (c + 1) (drop c units))
unfolding pieces
pieces-pick units c [] fits h =
    unfold in_ranges in ap concat (sym (pick_none [] (c + 1) (drop c units) (λ pos a b. refl)))
pieces-pick units c (r ∷ rs) fits (v, le, inl (e, no_more)) =
    let d = r.lo - 1 in
    concat-push units r (pieces units rs) v (omega arith)
    ∙ (ground (
      arith,
      take_all (length units) (drop d units),
      length-drop d units,
      append-nil (concat (drop d units)),
      reach r rs v c d units (v, omega arith, inl (e, no_more)) (omega arith) (omega arith),
      open_tail r rs v d units e (omega arith) fits,
    ))
pieces-pick units c (r ∷ rs) fits (v, le, inr (o, h)) =
    let d = r.lo - 1 in
    let ih =
      pieces-pick units r.hi rs fits (IsMerged-mono (r.hi + 2) (r.hi + 1) rs (omega arith) h) in
    concat-push units r (pieces units rs) v (omega arith)
    ∙ (ground (
      arith,
      ih,
      reach r rs v c d units (v, omega arith, inr (o, h)) (omega arith) (omega arith),
      closed r rs v d units o (omega arith) fits,
      concat-append (take (r.hi - d) (drop d units)) (pick rs (r.hi + 1) (drop r.hi units)),
    ))

join-concat : (ps : List Bytes) → join ps [] ≡ concat ps
unfolding join
join-concat [] = refl
join-concat (p ∷ []) = sym (append-nil p)
join-concat (p ∷ q ∷ ps) = ap (λ t. p ++ t) (join-concat (q ∷ ps))

-- `cut -b` and `cut -c` without `--output-delimiter`, for a merged list and a line whose length fits
-- an `int`: exactly the units at the covered positions, each once and in the order of the line.
pub cut_positions-pick :
    (rs : List Range) (units : List Bytes)
    → IsMerged 1 rs
    → length units < max_int
    → cut_positions rs [] units ≡ concat (pick rs 1 units)
unfolding cut_positions
cut_positions-pick rs units h fits = join-concat (pieces units rs) ∙ pieces-pick units 0 rs fits h
