-- ===== src/Cut/Examples.antt =====
-- Ranges of cut.go at concrete lists, and the theorems about them there.
use ba.Base.{ℕ, ◌≤◌, ◌≡◌, ◌≢◌, refl, inl, inr, false, List, [], ◌∷◌, codes, arith, All, ok, concat}
use ba.Base.Int64.{add64, sub64, slt, max_int}
use ba.Base.Split.{split}
use ba.Cut.Ranges.{Range, merge_ranges, complement_ranges, in_ranges}
use ba.Cut.Ranges.Valid.{IsRange, IsMerged}
use ba.Cut.Ranges.Merge.{merge_ranges-IsMerged}
use ba.Cut.Lists.{parse_ranges}
use ba.Cut.Lists.Sound.{IsListed, parse_ranges_sound}
use ba.Cut.Select.{cut_positions, byte_units, pick, FieldOptions}
use ba.Cut.Select.Positions.{cut_positions-pick}

abbrev given : List Range
given = record { lo = 5; hi = 0 } ∷ record { lo = 1; hi = 1 } ∷ record { lo = 1; hi = 2 } ∷ []

abbrev merged : List Range
merged = record { lo = 1; hi = 2 } ∷ record { lo = 5; hi = 0 } ∷ []

parses : parse_ranges (codes "5-,1,1-2") ≡ ok given
unfolding parse_ranges split slt
parses = refl

merges : merge_ranges given ≡ merged
unfolding merge_ranges slt add64
merges = refl

complements : complement_ranges merged ≡ record { lo = 3; hi = 4 } ∷ []
unfolding complement_ranges slt add64 sub64
complements = refl

cuts : cut_positions merged (codes ":") (byte_units (codes "abcdefg")) ≡ codes "ab:efg"
unfolding cut_positions slt
cuts = refl

-- At the largest `int` the sum `last.hi+1` wraps, so that the second range is kept and its byte is
-- written twice.
wraps :
    cut_positions
      (merge_ranges (record { lo = 1; hi = max_int } ∷ record { lo = 2; hi = 2 } ∷ []))
      []
      (byte_units (codes "abc"))
    ≡ codes "abcb"
unfolding cut_positions merge_ranges slt add64
wraps = refl

given-IsRange : All IsRange given
given-IsRange = omega arith

merged-IsMerged : IsMerged 1 merged
merged-IsMerged =
    (omega arith, omega arith, inr (omega arith, (omega arith, omega arith, inl (refl, refl))))

parse_ranges_sound_example : (given ≢ []) × All IsListed given
parse_ranges_sound_example = parse_ranges_sound (codes "5-,1,1-2") given parses

merge_ranges-IsMerged_example :
    IsMerged 1 (merge_ranges given)
    × ((pos : ℕ) → pos ≤ max_int → in_ranges pos (merge_ranges given) ≡ in_ranges pos given)
merge_ranges-IsMerged_example = merge_ranges-IsMerged given given-IsRange

cut_positions-pick_example :
    cut_positions merged [] (byte_units (codes "abcdefg"))
    ≡ concat (pick merged 1 (byte_units (codes "abcdefg")))
cut_positions-pick_example =
    cut_positions-pick merged (byte_units (codes "abcdefg")) merged-IsMerged (omega arith)

abbrev by_colon : FieldOptions
by_colon = record { delim = codes ":"; out_delim = []; out_set = false; only_delim = false }
