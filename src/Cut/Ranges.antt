-- ===== src/Cut/Ranges.antt =====
-- The ranges of cut.go: mergeRanges, complementRanges, inRanges. Positions are Go `int`s, as bit
-- patterns (Base/Int64), so `last.hi+1` wraps at the largest one.
pub mod Valid
pub mod Merge
pub mod Complement
use ba.Base.{Bool, true, false, not, ◌&&◌, ◌||◌, ℕ, List, [], ◌∷◌, ◌++◌, ◌==◌, if◌then◌else◌}
use ba.Base.Int64.{add64, sub64, slt}

-- Inclusive and 1-based; `hi` 0 means to the end of the line.
pub record Range : Type 0 where
  pub lo : ℕ
  pub hi : ℕ

-- The inner loop of the sort, which swaps `x` downwards; the array up to `x` is given from its end.
unfoldable pub sink : Range → List Range → List Range
sink x [] = x ∷ []
sink x (y ∷ ys) = if slt x.lo y.lo then y ∷ sink x ys else x ∷ y ∷ ys

unfoldable pub sort_loop : List Range → List Range → List Range
unfolding sink
sort_loop done [] = done
sort_loop done (r ∷ rs) = sort_loop (sink r done) rs

-- The array, which the sort keeps from its end, in its own order.
unfoldable pub rev_onto : List Range → List Range → List Range
rev_onto [] acc = acc
rev_onto (r ∷ rs) acc = rev_onto rs (r ∷ acc)

-- The body of the second loop, at `last := &merged[len(merged)-1]`.
unfoldable pub fold_into : Range → Range → List Range
fold_into last r =
    if last.hi == 0
    then last ∷ []
    else if slt (add64 last.hi 1) r.lo
    then last ∷ r ∷ []
    else if (r.hi == 0) || slt last.hi r.hi
    then record last { hi = r.hi } ∷ []
    else last ∷ []

unfoldable pub merge_into : List Range → Range → List Range
unfolding fold_into
merge_into [] r = r ∷ []
merge_into (last ∷ []) r = fold_into last r
merge_into (q ∷ q' ∷ qs) r = q ∷ merge_into (q' ∷ qs) r

unfoldable pub merge_loop : List Range → List Range → List Range
unfolding merge_into
merge_loop merged [] = merged
merge_loop merged (r ∷ rs) = merge_loop (merge_into merged r) rs

unfoldable pub merge_ranges : List Range → List Range
unfolding sort_loop rev_onto merge_loop
merge_ranges ranges = merge_loop [] (rev_onto (sort_loop [] ranges) [])

-- The loop of `complementRanges` from `next` on; an open range returns early.
unfoldable pub gaps : ℕ → List Range → List Range
gaps next [] = record { lo = next; hi = 0 } ∷ []
gaps next (r ∷ rs) =
    let out = gaps (add64 r.hi 1) rs in
    if slt next r.lo
    then record { lo = next; hi = sub64 r.lo 1 } ∷ (if r.hi == 0 then [] else out)
    else if r.hi == 0
    then []
    else out

unfoldable pub complement_ranges : List Range → List Range
unfolding gaps
complement_ranges ranges = gaps 1 ranges

unfoldable pub covers : Range → ℕ → Bool
covers r pos = not (slt pos r.lo) && ((r.hi == 0) || not (slt r.hi pos))

unfoldable pub in_ranges : ℕ → List Range → Bool
in_ranges pos [] = false
in_ranges pos (r ∷ rs) = if covers r pos then true else in_ranges pos rs
