-- ===== src/Cut/Run/Ascii.antt =====
-- `cut -c` on lines of ASCII.
use ba.Base.{◌<◌, ◌≡◌, refl, Bool, List, [], ◌∷◌, some, Bytes, All, codes, File, Files, ok}
use ba.Base.Lines.{scan_lines}
use ba.Cut.Ranges.{Range, merge_ranges}
use ba.Cut.Lists.{parse_ranges}
use ba.Cut.Units.{char_units-byte_units}
use ba.Cut.Command.{CutOptions, fresh, mode_bytes, mode_chars}
use ba.Cut.Run.{cmd_cut, cut_lines, cut_line}

abbrev pub IsAscii : Bytes → Type 0
IsAscii line = All (λ c. c < 0x80) line

cut_lines-ascii :
    (o o' : CutOptions) (rs : List Range) (lines : List Bytes)
    → o.mode ≡ mode_chars
    → o'.mode ≡ mode_bytes
    → o.out_delim ≡ o'.out_delim
    → o.zero_term ≡ o'.zero_term
    → All IsAscii lines
    → cut_lines o rs lines ≡ cut_lines o' rs lines
unfolding cut_lines cut_line
cut_lines-ascii o o' rs [] m m' d z h = refl
cut_lines-ascii o o' rs (line ∷ lines) m m' d z (h, hs) =
    let ih = cut_lines-ascii o o' rs lines m m' d z hs in
    let units = char_units-byte_units line h in rw (m, m', d, z, units, ih)

-- `cut -c LIST -- FILE` does what `cut -b LIST -- FILE` does where the list is read as ranges and the
-- lines of the file are ASCII; reading and closing the file may fail.
pub cmd_cut-ascii :
    (files : Files) (flushes : Bool) (list name : Bytes) (rs : List Range) (f : File)
    → parse_ranges list ≡ ok rs
    → files name ≡ some f
    → All IsAscii (scan_lines f.bytes)
    → cmd_cut files flushes (codes "-c" ∷ list ∷ codes "--" ∷ name ∷ [])
      ≡ cmd_cut files flushes (codes "-b" ∷ list ∷ codes "--" ∷ name ∷ [])
unfolding cmd_cut
cmd_cut-ascii files flushes list name rs f e fe h =
    let o = record fresh { mode = mode_chars; list = list; names = name ∷ [] } in
    let o' = record fresh { mode = mode_bytes; list = list; names = name ∷ [] } in
    rw (e, fe, cut_lines-ascii o o' (merge_ranges rs) (scan_lines f.bytes) refl refl refl refl h)
      refl
