-- ===== src/Cut/Run/Examples.antt =====
-- Runs of `cmdCut`, and the theorems about the command at concrete inputs.
use ba.Base.{◌≡◌, refl, true, false, List, [], ◌∷◌, some, Bytes, codes, arith, Files, ok}
use ba.Base.Int64.{add64, slt}
use ba.Base.Lines.{scan_lines, read_lines, chomp}
use ba.Base.Split.{split, holds}
use ba.Cut.Ranges.{Range, merge_ranges, in_ranges, covers}
use ba.Cut.Lists.{parse_ranges}
use ba.Cut.Select.{cut_positions, cut_fields}
use ba.Cut.Units.{char_units}
use ba.Cut.Command.{bad_delimiter, missing_argument}
use ba.Cut.Run.{cmd_cut}
use ba.Cut.Run.Ascii.{cmd_cut-ascii}

abbrev disk_of : Bytes → Files
disk_of s name = some (record { bytes = s; broken = false; closes = true })

fields :
    cmd_cut (disk_of (codes "a:b:c\nno\n")) true (codes "-sd:" ∷ codes "-f" ∷ codes "1,3" ∷ [])
    ≡ record { status = 0; out = codes "a:c\n"; messages = [] }
unfolding cmd_cut parse_ranges split merge_ranges slt add64 scan_lines read_lines chomp cut_fields
    holds char_units in_ranges covers
fields = refl

long_delimiter :
    cmd_cut (disk_of []) true (codes "-f1" ∷ codes "--delimiter=ab" ∷ [])
    ≡ record { status = 1; out = []; messages = bad_delimiter ∷ [] }
unfolding cmd_cut char_units
long_delimiter = refl

no_value :
    cmd_cut (disk_of []) true (codes "-zb" ∷ [])
    ≡ record { status = 1; out = []; messages = missing_argument (codes "b") ∷ [] }
unfolding cmd_cut
no_value = refl

-- A byte that is no UTF-8 comes out as the three bytes of U+FFFD.
invalid_byte :
    cmd_cut (disk_of (0xFF ∷ 10 ∷ [])) true (codes "-c1-" ∷ [])
    ≡ record { status = 0; out = 0xEF ∷ 0xBF ∷ 0xBD ∷ 10 ∷ []; messages = [] }
unfolding cmd_cut parse_ranges split merge_ranges slt add64 scan_lines read_lines chomp
    cut_positions char_units
invalid_byte = refl

abbrev ranges : List Range
ranges = record { lo = 3; hi = 3 } ∷ record { lo = 1; hi = 1 } ∷ []

parsed : parse_ranges (codes "3,1") ≡ ok ranges
unfolding parse_ranges split slt
parsed = refl

abbrev text : Bytes
text = codes "abc\nxyz\n"

cmd_cut-ascii_example :
    cmd_cut (disk_of text) true (codes "-c" ∷ codes "3,1" ∷ codes "--" ∷ codes "f" ∷ [])
    ≡ cmd_cut (disk_of text) true (codes "-b" ∷ codes "3,1" ∷ codes "--" ∷ codes "f" ∷ [])
unfolding scan_lines read_lines chomp
cmd_cut-ascii_example =
    cmd_cut-ascii (disk_of text) true (codes "3,1") (codes "f") ranges
      (record { bytes = text; broken = false; closes = true }) parsed refl
      (
        (omega arith, (omega arith, (omega arith, tt))),
        ((omega arith, (omega arith, (omega arith, tt))), tt),
      )
