-- ===== src/Uniq/Run.antt =====
-- `cmdUniq` behind its options: the checks on them, and the run from one file to another.
pub mod Laws
use ba.Base.{
  unless, status_of, ℕ, zero, suc, ◌+◌, Bool, true, false, not, ◌&&◌, ◌||◌, List, [], ◌∷◌, ◌++◌,
  Option, none, some, Bytes, codes, ltb, ◌==◌, if◌then◌else◌, length, bytes_eq, File, Files, Result,
  ok, err, ◌>>=◌,
}
use ba.Base.Lines.{newline, scan_lines, scan_pieces}
use ba.Uniq.Key.{key}
use ba.Uniq.Emit.{Mode, Method, absent, plain, prepend, append, separate, both}
use ba.Uniq.Groups.{uniq_lines}
use ba.Uniq.Command.{
  Message, invalid_method, repeat_counts, group_exclusive, extra_operand, cannot_open, same_files,
  cannot_create, read_error, write_error, out_close, in_close, Options, fresh, parse_args,
}

-- What the system does: the files by name, whether two names are one file, and whether a file can
-- be created, the last flush succeeds, and the output file closes.
pub record World : Type 0 where
  pub files : Files
  pub is_same : Bytes → Bytes → Bool
  pub creates : Bytes → Bool
  pub flushes : Bool
  pub out_closes : Bool

-- `target` is the file that is created, or else the output goes to standard output.
pub record Run : Type 0 where
  pub status : ℕ
  pub target : Option Bytes
  pub out : Bytes
  pub messages : List Message

abbrev pub failed : List Message → Run
failed messages = record { status = 1; target = none; out = []; messages = messages }

abbrev pub Passed : Type 0
Passed = Unit

-- `uniqMethod`: the verdict, and the message where there is one. `is_group` tells the options apart.
unfoldable pub uniq_method : Bytes → Bool → Bool × List Message
uniq_method method is_group =
    if bytes_eq method (codes "none")
    then (not is_group, [])
    else if bytes_eq method (codes "prepend") || bytes_eq method (codes "separate")
    then (true, [])
    else if bytes_eq method (codes "append") || bytes_eq method (codes "both")
    then (is_group, [])
    else (false, invalid_method method is_group ∷ [])

unfoldable pub method_of : Bytes → Method
method_of method =
    if bytes_eq method []
    then absent
    else if bytes_eq method (codes "prepend")
    then prepend
    else if bytes_eq method (codes "append")
    then append
    else if bytes_eq method (codes "separate")
    then separate
    else if bytes_eq method (codes "both")
    then both
    else plain

abbrev pub is_given : Bytes → Bool
is_given method = not (bytes_eq method [])

abbrev pub require_method : Bytes → Bool → Result (List Message) Passed
require_method method is_group =
    let (valid, messages) = uniq_method method is_group in
    if is_given method && not valid then err messages else ok tt

unfoldable pub check_options : Options → Result (List Message) Passed
check_options o =
    if is_given o.all_repeat && o.count
    then err (repeat_counts ∷ [])
    else if is_given o.group_mode
        && (o.count || (o.only_dup || (o.only_uniq || is_given o.all_repeat)))
    then err (group_exclusive ∷ [])
    else require_method o.all_repeat false >>= λ done. require_method o.group_mode true

abbrev pub mode_of : Options → Mode
mode_of o = record {
  count = o.count;
  only_dup = o.only_dup;
  only_uniq = o.only_uniq;
  all_repeat = method_of o.all_repeat;
  group_mode = method_of o.group_mode;
  term = if o.zero_term then 0 else newline;
}

-- The two operands, "-" and standard output if they are missing.
unfoldable pub names : List Bytes → Result (List Message) (Bytes × Option Bytes)
names [] = ok (codes "-", none)
names (a ∷ []) = ok (a, none)
names (a ∷ b ∷ []) = ok (a, (if bytes_eq b [] then none else some b))
names (a ∷ b ∷ c ∷ rest) = err (extra_operand c ∷ [])

unfoldable pub lines_of : Bool → Bytes → List Bytes
lines_of zero_term s = if zero_term then scan_pieces 0 s else scan_lines s

abbrev pub opened : Option Bytes → Bytes × Bool
opened none = ([], false)
opened (some name) = (name, true)

-- From `key` on.
unfoldable pub filter_file : World → (Bytes → Bytes) → Options → Bytes → Option Bytes → File → Run
unfolding lines_of
filter_file w lower o in_name target f =
    let k = key lower o.fields o.chars o.check o.ignore_case in
    let out = uniq_lines (mode_of o) k (lines_of o.zero_term f.bytes) in
    let (out_name, is_file) = opened target in
    let messages =
      unless (not f.broken) (read_error in_name)
      ++ (unless w.flushes (write_error out_name)
          ++ (unless (not is_file || w.out_closes) (out_close out_name)
              ++ unless f.closes (in_close in_name))) in
    record { status = status_of messages; target = target; out = out; messages = messages }

unfoldable pub open_output : World → (Bytes → Bytes) → Options → Bytes → Option Bytes → File → Run
unfolding filter_file
open_output w lower o in_name none f = filter_file w lower o in_name none f
open_output w lower o in_name (some out_name) f =
    if w.is_same in_name out_name
    then failed (same_files out_name ∷ [])
    else if w.creates out_name
    then filter_file w lower o in_name (some out_name) f
    else failed (cannot_create out_name ∷ [])

unfoldable pub open_input :
    World → (Bytes → Bytes) → Options → Bytes → Option Bytes → Option File → Run
unfolding open_output
open_input w lower o in_name target none = failed (cannot_open in_name ∷ [])
open_input w lower o in_name target (some f) = open_output w lower o in_name target f

unfoldable pub run_names :
    World → (Bytes → Bytes) → Options → Result (List Message) (Bytes × Option Bytes) → Run
unfolding open_input
run_names w lower o (err messages) = failed messages
run_names w lower o (ok (in_name, target)) = open_input w lower o in_name target (w.files in_name)

unfoldable pub run_options : World → (Bytes → Bytes) → Result Message Options → Run
unfolding run_names names check_options
run_options w lower (err m) = failed (m ∷ [])
run_options w lower (ok o) = run_names w lower o (check_options o >>= λ done. names o.operands)

unfoldable pub cmd_uniq : World → (Bytes → Bytes) → List Bytes → Run
unfolding run_options parse_args
cmd_uniq w lower args = run_options w lower (parse_args args fresh)
