-- ===== src/Cut/Run.antt =====
-- `cmdCut` behind its arguments, and `run`: the checks on the options, and the loop over the files.
pub mod Laws
pub mod Ascii
mod Examples
use ba.Base.{
  unless, status_of, default_names, ℕ, zero, suc, ◌+◌, Bool, true, false, not, ◌&&◌, ◌||◌, List, [],
  ◌∷◌, ◌++◌, Option, none, some, Bytes, codes, ltb, ◌==◌, if◌then◌else◌, length, File, Files,
  Result, ok, err, ◌>>=◌,
}
use ba.Base.Lines.{newline, scan_lines, scan_pieces}
use ba.Cut.Ranges.{Range, merge_ranges, complement_ranges}
use ba.Cut.Lists.{ListError, parse_ranges}
use ba.Cut.Select.{FieldOptions, cut_positions, cut_fields, byte_units}
use ba.Cut.Units.{char_units, rune_count}
use ba.Cut.Command.{
  CutMode, mode_none, mode_fields, mode_chars, mode_bytes, Message, no_list, bad_delimiter,
  fields_only, bad_list, cannot_open, error_reading, write_error, CutOptions, fresh, parse_args,
}

pub record Run : Type 0 where
  pub status : ℕ
  pub out : Bytes
  pub messages : List Message

abbrev pub is_fields : CutMode → Bool
is_fields mode_fields = true
is_fields mode = false

abbrev pub is_none : CutMode → Bool
is_none mode_none = true
is_none mode = false

abbrev pub list_result : CutMode → Result ListError (List Range) → Result Message (List Range)
list_result mode (ok rs) = ok rs
list_result mode (err e) = err (bad_list mode e)

-- The checks behind the loop over the arguments, and the ranges that are left.
unfoldable pub check_options : CutOptions → Result Message (List Range)
check_options o =
    if is_none o.mode
    then err no_list
    else if is_fields o.mode && not (rune_count o.delim == 1)
    then err bad_delimiter
    else if not (is_fields o.mode) && o.only_delim
    then err fields_only
    else list_result o.mode (parse_ranges o.list) >>= λ rs.
        ok (if o.complement then complement_ranges (merge_ranges rs) else merge_ranges rs)

abbrev pub field_options : CutOptions → FieldOptions
field_options o = record {
  delim = o.delim;
  out_delim = o.out_delim;
  out_set = o.out_set;
  only_delim = o.only_delim;
}

-- What is written for a line, but for the terminator.
unfoldable pub cut_line : CutMode → CutOptions → List Range → Bytes → Option Bytes
cut_line mode_fields o ranges line = cut_fields (field_options o) ranges line
cut_line mode_bytes o ranges line = some (cut_positions ranges o.out_delim (byte_units line))
cut_line mode o ranges line = some (cut_positions ranges o.out_delim (char_units line))

abbrev pub end_line : ℕ → Option Bytes → Bytes
end_line terminator none = []
end_line terminator (some text) = text ++ terminator ∷ []

unfoldable pub cut_lines : CutOptions → List Range → List Bytes → Bytes
unfolding cut_line
cut_lines o ranges [] = []
cut_lines o ranges (line ∷ lines) =
    end_line (if o.zero_term then 0 else newline) (cut_line o.mode o ranges line)
    ++ cut_lines o ranges lines

unfoldable pub cut_file : CutOptions → List Range → Bytes → Option File → Bytes × List Message
unfolding cut_lines
cut_file o ranges name none = ([], cannot_open name ∷ [])
cut_file o ranges name (some f) =
    let lines = if o.zero_term then scan_pieces 0 f.bytes else scan_lines f.bytes in
    (
      cut_lines o ranges lines,
      unless (not f.broken) (error_reading name) ++ unless f.closes (error_reading name),
    )

unfoldable pub cut_files : CutOptions → List Range → Files → List Bytes → Bytes × List Message
unfolding cut_file
cut_files o ranges files [] = ([], [])
cut_files o ranges files (name ∷ names) =
    let (out, messages) = cut_file o ranges name (files name) in
    let (out', messages') = cut_files o ranges files names in (out ++ out', messages ++ messages')

unfoldable pub run : Bool → Bytes × List Message → Run
run flushes (out, messages) =
    let all = messages ++ unless flushes write_error in
    record { status = status_of all; out = out; messages = all }

unfoldable pub run_ranges : CutOptions → Files → Bool → Result Message (List Range) → Run
unfolding run cut_files
run_ranges o files flushes (err m) = record { status = 1; out = []; messages = m ∷ [] }
run_ranges o files flushes (ok rs) = run flushes (cut_files o rs files (default_names o.names))

unfoldable pub run_options : Files → Bool → Result Message CutOptions → Run
unfolding run_ranges check_options
run_options files flushes (err m) = record { status = 1; out = []; messages = m ∷ [] }
run_options files flushes (ok o) = run_ranges o files flushes (check_options o)

unfoldable pub cmd_cut : Files → Bool → List Bytes → Run
unfolding run_options parse_args
cmd_cut files flushes args = run_options files flushes (parse_args args fresh)
