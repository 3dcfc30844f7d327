-- ===== src/Cut/Lists/Sound.antt =====
-- What `parseRanges` accepts.
use ba.Base.{
  ℕ, ◌≤◌, ◌≡◌, ◌≢◌, ◌⊎◌, List, [], ◌∷◌, Option, none, some, Bytes, arith, All, Result, ok, ok_chain,
}
use mathlib.Core.Path.{subst}
use ba.Base.Int64.{max_int, slt-eq-ltb}
use ba.Base.Split.{split}
use ba.Cut.Ranges.{Range}
use ba.Cut.Lists.{
  ListError, number_behind, number, range_end, drop_digits, cut_at_dash, check_order, parse_sides,
  parse_part, parse_parts, require_some, parse_ranges,
}

abbrev pub IsListed : Range → Type 0
IsListed r = (1 ≤ r.lo) × (r.lo ≤ max_int) × (r.hi ≤ max_int) × ((r.hi ≡ 0) ⊎ (r.lo ≤ r.hi))

number_behind_bounds :
    (text rest : Bytes) (n : ℕ) → number_behind text rest ≡ ok n → (1 ≤ n) × (n ≤ max_int)
unfolding number_behind
number_behind_bounds [] rest n h = ground arith
number_behind_bounds (c ∷ text) [] n h = ground arith
number_behind_bounds (c ∷ text) (d ∷ rest) n h = ground arith

range_end_bounds :
    (text : Bytes) (default n : ℕ)
    → default ≤ 1
    → range_end text default ≡ ok n
    → (default ≤ n) × (n ≤ max_int)
unfolding range_end number
range_end_bounds [] default n h e = ground arith
range_end_bounds (c ∷ text) default n h e = grind (arith, number_behind_bounds)

check_order-IsListed :
    (lo hi : ℕ) (r : Range)
    → 1 ≤ lo
    → lo ≤ max_int
    → hi ≤ max_int
    → check_order lo hi ≡ ok r
    → IsListed r
unfolding check_order
check_order-IsListed lo hi r h1 h2 h3 e = ground (arith, slt-eq-ltb hi lo h3 h2)

parse_sides-IsListed :
    (part : Bytes) (o : Option (Bytes × Bytes)) (r : Range) → parse_sides part o ≡ ok r → IsListed r
unfolding parse_sides number
parse_sides-IsListed part none r e =
    let (n, en, e') = ok_chain (number part) _ e in
    ground (arith, number_behind_bounds part (drop_digits part) n en, e')
parse_sides-IsListed part (some (a, b)) r e =
    let (lo, elo, e') = ok_chain (range_end a 1) _ e in
    let (hi, ehi, e2) = ok_chain (range_end b 0) _ e' in
    let l = range_end_bounds a 1 lo (omega arith) elo in
    let h = range_end_bounds b 0 hi (omega arith) ehi in check_order-IsListed lo hi r l.0 l.1 h.1 e2

parse_parts-IsListed :
    (parts : List Bytes) (rs : List Range) → parse_parts parts ≡ ok rs → All IsListed rs
unfolding parse_parts parse_part
parse_parts-IsListed [] rs e = nothing rs e
  where
    nothing :
        (rs : List Range)
        → ◌≡◌ {A = Result ListError (List Range)} (ok []) (ok rs)
        → All IsListed rs
    nothing [] e = tt
    nothing (r ∷ rs) e = absurd (cc)
parse_parts-IsListed ([] ∷ parts) rs e = parse_parts-IsListed parts rs e
parse_parts-IsListed ((c ∷ part) ∷ parts) rs e =
    let (r, er, e') = ok_chain (parse_part (c ∷ part)) _ e in
    let (qs, eq, e2) = ok_chain (parse_parts parts) _ e' in
    front rs r qs (parse_sides-IsListed (c ∷ part) (cut_at_dash (c ∷ part)) r er)
      (parse_parts-IsListed parts qs eq) e2
  where
    front :
        (rs : List Range) (r : Range) (qs : List Range)
        → IsListed r
        → All IsListed qs
        → ◌≡◌ {A = Result ListError (List Range)} (ok (r ∷ qs)) (ok rs)
        → All IsListed rs
    front rs r qs v vs e = let e' : r ∷ qs ≡ rs = cc in subst (All IsListed) e' (v, vs)

-- What `parseRanges` accepts is a list of at least one range; each begins at 1 or later, ends at or
-- behind its begin or is open, and has ends that fit an `int`.
pub parse_ranges_sound :
    (spec : Bytes) (rs : List Range) → parse_ranges spec ≡ ok rs → (rs ≢ []) × All IsListed rs
unfolding parse_ranges require_some
parse_ranges_sound spec rs e =
    let (qs, eq, e') = ok_chain (parse_parts (split spec (b',' ∷ []))) require_some e in
    some_range qs (parse_parts-IsListed (split spec (b',' ∷ [])) qs eq) e'
  where
    some_range :
        (qs : List Range) → All IsListed qs → require_some qs ≡ ok rs → (rs ≢ []) × All IsListed rs
    some_range [] h e = absurd (cc)
    some_range (q ∷ qs) h e =
        let e' : q ∷ qs ≡ rs = cc in ((λ n. absurd (cc)), subst (All IsListed) e' h)
