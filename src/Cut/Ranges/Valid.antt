-- ===== src/Cut/Ranges/Valid.antt =====
-- Ranges whose ends leave room for `hi+1`, and the order in which the merge leaves them.
use ba.Base.{ℕ, ◌+◌, ◌≤◌, ◌<◌, ◌≡◌, ◌⊎◌, List, [], ◌∷◌, arith, leb, ◌&&◌, ◌||◌, ◌==◌}
use ba.Base.Int64.{max_int, slt-eq-ltb}
use ba.Cut.Ranges.{Range, covers}

-- What `parseRanges` returns, but for ends at the largest `int`.
pub record IsRange (r : Range) : Type 0 where
  pub lo_pos : 1 ≤ r.lo
  pub lo_fits : r.lo < max_int
  pub hi_fits : r.hi + 1 < max_int
  pub order : (r.hi ≡ 0) ⊎ (r.lo ≤ r.hi)

-- The test of `inRanges` on numbers.
pub covers-leb :
    (r : Range) (pos : ℕ)
    → IsRange r
    → pos ≤ max_int
    → covers r pos ≡ (leb r.lo pos && ((r.hi == 0) || leb pos r.hi))
unfolding covers
covers-leb r pos v h =
    rw (slt-eq-ltb pos r.lo h (omega arith), slt-eq-ltb r.hi pos (omega arith) h) (ground arith)

-- Ascending, from `b` on, with a gap between any two, and open only at the end.
abbrev pub IsMerged : ℕ → List Range → Type 0
IsMerged b [] = Unit
IsMerged b (r ∷ rs) =
    IsRange r × (b ≤ r.lo) × (((r.hi ≡ 0) × (rs ≡ [])) ⊎ ((r.lo ≤ r.hi) × IsMerged (r.hi + 2) rs))
