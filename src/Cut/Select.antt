-- ===== src/Cut/Select.antt =====
-- `cutPositions` and `cutFields` of cut.go: what a list of ranges keeps of a line.
pub mod Positions
pub mod Fields
use ba.Base.{
  ℕ, ◌+◌, ◌-◌, Bool, true, false, ◌||◌, List, [], ◌∷◌, Option, none, some, Bytes, ◌==◌,
  if◌then◌else◌, length, take, drop, concat,
}
use ba.Base.Int64.{slt}
use ba.Base.Split.{split, join, holds}
use ba.Cut.Ranges.{Range, in_ranges}

-- The text that a range keeps, if there is some; `len(units)` is `n`.
unfoldable pub piece : List Bytes → Range → Option Bytes
piece units r =
    let n = length units in
    let hi = if (r.hi == 0) || slt n r.hi then n else r.hi in
    if slt n r.lo || slt hi r.lo
    then none
    else some (concat (take (hi - (r.lo - 1)) (drop (r.lo - 1) units)))

unfoldable pub push : Option Bytes → List Bytes → List Bytes
push none ps = ps
push (some p) ps = p ∷ ps

unfoldable pub pieces : List Bytes → List Range → List Bytes
unfolding piece push
pieces units [] = []
pieces units (r ∷ rs) = push (piece units r) (pieces units rs)

-- `-b`: a unit for each byte.
abbrev pub byte_units : Bytes → List Bytes
byte_units [] = []
byte_units (b ∷ line) = (b ∷ []) ∷ byte_units line

-- `cutPositions`, on the units of the line.
unfoldable pub cut_positions : List Range → Bytes → List Bytes → Bytes
unfolding pieces join
cut_positions ranges out_delim units = join (pieces units ranges) out_delim

-- The fields at the positions of the ranges; `i` is the index of the first.
unfoldable pub pick {ℓ} : {A : Type ℓ} → List Range → ℕ → List A → List A
pick ranges pos [] = []
pick ranges pos (u ∷ us) =
    let rest = pick ranges (pos + 1) us in if in_ranges pos ranges then u ∷ rest else rest

pub record FieldOptions : Type 0 where
  pub delim : Bytes
  pub out_delim : Bytes
  pub out_set : Bool
  pub only_delim : Bool

-- `cutFields`; `none` where `-s` suppresses the line.
unfoldable pub cut_fields : FieldOptions → List Range → Bytes → Option Bytes
unfolding holds pick join split
cut_fields o ranges line =
    if holds o.delim line
    then some
        (join (pick ranges 1 (split line o.delim)) (if o.out_set then o.out_delim else o.delim))
    else if o.only_delim
    then none
    else some line
