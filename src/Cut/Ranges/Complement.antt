-- ===== src/Cut/Ranges/Complement.antt =====
-- complementRanges: the ranges of the positions that a merged list leaves out.
use ba.Base.{ℕ, ◌+◌, ◌≤◌, ◌<◌, ◌≡◌, refl, inl, inr, List, [], ◌∷◌, arith, false}
use ba.Base.Int64.{max_int}
use ba.Cut.Ranges.{Range, in_ranges}
use ba.Cut.Ranges.Valid.{IsMerged, covers-leb}

-- Below its bound a merged list covers nothing.
pub in_ranges-below :
    (b pos : ℕ) (rs : List Range)
    → IsMerged b rs
    → pos < b
    → pos ≤ max_int
    → in_ranges pos rs ≡ false
unfolding in_ranges
in_ranges-below b pos [] h lt hp = refl
in_ranges-below b pos (r ∷ rs) (v, le, inl (e, no_more)) lt hp =
    rw no_more (unfold in_ranges in ground (arith, covers-leb r pos v hp))
in_ranges-below b pos (r ∷ rs) (v, le, inr (o, h)) lt hp =
    ground (arith, covers-leb r pos v hp, in_ranges-below (r.hi + 2) pos rs h)

pub IsMerged-mono : (b c : ℕ) (rs : List Range) → c ≤ b → IsMerged b rs → IsMerged c rs
IsMerged-mono b c [] h m = tt
IsMerged-mono b c (r ∷ rs) h (v, le, o) = (v, omega arith, o)
