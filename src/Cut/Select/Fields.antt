-- ===== src/Cut/Select/Fields.antt =====
-- What `cut -f` keeps.
use ba.Base.{
  ℕ, ◌≤◌, ◌<◌, ◌≡◌, true, false, not, ◌&&◌, List, [], ◌∷◌, none, some, Bytes, arith, if◌then◌else◌,
  length,
}
use ba.Base.Int64.{max_int}
use ba.Base.Split.{split, join-split, holds}
use ba.Cut.Ranges.{Range, in_ranges}
use ba.Cut.Ranges.Valid.{covers-leb}
use ba.Cut.Select.{pick, FieldOptions, cut_fields}
use ba.Cut.Select.Positions.{pick_all}

-- `-f1-`: every field.
abbrev pub whole : List Range
whole = record { lo = 1; hi = 0 } ∷ []

in_ranges-whole : (pos : ℕ) → 1 ≤ pos → pos ≤ max_int → in_ranges pos whole ≡ true
unfolding in_ranges
in_ranges-whole pos h hp =
    ground (arith, covers-leb (record { lo = 1; hi = 0 }) pos (omega arith) hp)

-- `cut -f1-` without `--output-delimiter` writes every line as it is, but for the lines that `-s`
-- suppresses: those without the delimiter.
pub cut_fields-whole :
    (o : FieldOptions) (line : Bytes)
    → o.out_set ≡ false
    → length (split line o.delim) < max_int
    → cut_fields o whole line
      ≡ (if not (holds o.delim line) && o.only_delim then none else some line)
unfolding cut_fields
cut_fields-whole o line h fits = ground (arith, all_fields, join-split line o.delim)
  where
    all_fields : pick whole 1 (split line o.delim) ≡ split line o.delim
    all_fields = pick_all whole 1 _ λ pos a b. in_ranges-whole pos a (omega arith)
