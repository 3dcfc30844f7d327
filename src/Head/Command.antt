-- ===== src/Head/Command.antt =====
-- `cmdHead` and `emitFirstLines` of head.go. Every file goes to one buffered writer; `flushes` says
-- whether the final `Flush` succeeds. Messages are data.
pub mod Laws
use ba.Base.{
  starts_dash, status_of, default_names, ℕ, zero, suc, ◌+◌, ◌-◌, Bool, true, false, not, ◌&&◌, ◌||◌,
  List, [], ◌∷◌, ◌++◌, Option, none, some, Bytes, codes, ltb, leb, ◌==◌, if◌then◌else◌, length,
  take, drop, bytes_eq, File, Files, Result, ok, err, ◌>>=◌,
}
use ba.Base.Lines.{newline, read_lines}
use ba.Base.Split.{strip_prefix}
use ba.Util.Options.{expand_short_options}
use ba.Head.Count.{parse_count}

-- The loop of `emitFirstLines` over the lines that are read.
unfoldable pub first_lines : ℕ → List Bytes → Bytes
first_lines zero lines = []
first_lines (suc n) [] = []
first_lines (suc n) (line ∷ lines) = line ++ first_lines n lines

unfoldable pub ends_line : Bytes → Bool
ends_line [] = false
ends_line (c ∷ []) = c == newline
ends_line (c ∷ d ∷ s) = ends_line (d ∷ s)

-- Whether the loop reads past the last newline, and so meets the end of the input.
unfoldable pub meets_end : ℕ → List Bytes → Bool
unfolding ends_line
meets_end zero lines = false
meets_end (suc n) [] = true
meets_end (suc n) (line ∷ lines) = if ends_line line then meets_end n lines else true

pub data Message : Type 0 where
  missing_argument : ℕ → Message
  invalid_number : Bytes → Message
  invalid_option : Bytes → Message
  cannot_open : Bytes → Message
  error_reading : Bytes → Message
  write_error : Message

pub record Options : Type 0 where
  pub count : ℕ
  pub by_mode : Bool
  pub quiet : Bool
  pub verbose : Bool
  pub files : List Bytes

abbrev pub fresh : Options
fresh = record { count = 10; by_mode = false; quiet = false; verbose = false; files = [] }

-- What an argument is, by the cases of the switch.
pub data Kind : Type 0 where
  dashes : Kind
  quiet_flag : Kind
  verbose_flag : Kind
  next_count : ℕ → Kind
  attached : Bool → Bytes → Kind
  bad : Kind
  operand : Kind

-- `strings.HasPrefix(a, "-n")`, then `"-c"`, then `len(a) > 1 && a[0] == '-'`
unfoldable pub classify_rest : Bytes → Option Bytes → Option Bytes → Kind
classify_rest a (some text) c = attached false text
classify_rest a none (some text) = attached true text
classify_rest a none none = if ltb 1 (length a) && starts_dash a then bad else operand

unfoldable pub classify : Bytes → Kind
unfolding classify_rest strip_prefix
classify a =
    if bytes_eq a (codes "--")
    then dashes
    else if bytes_eq a (codes "-q") || bytes_eq a (codes "--quiet") || bytes_eq a (codes "--silent")
    then quiet_flag
    else if bytes_eq a (codes "-v") || bytes_eq a (codes "--verbose")
    then verbose_flag
    else if bytes_eq a (codes "-n")
    then next_count b'n'
    else if bytes_eq a (codes "-c")
    then next_count b'c'
    else classify_rest a (strip_prefix (codes "-n") a) (strip_prefix (codes "-c") a)

unfoldable pub set_count : Bool → Bytes → Option ℕ → Options → Result Message Options
set_count by_mode text none o = err (invalid_number text)
set_count by_mode text (some n) o = ok (record o { count = n; by_mode = by_mode })

-- The cases that look at no further argument.
unfoldable pub apply : Bytes → Kind → Options → Result Message Options
unfolding set_count
apply a dashes o = ok o
apply a quiet_flag o = ok (record o { quiet = true })
apply a verbose_flag o = ok (record o { verbose = true })
apply a (next_count c) o = err (missing_argument c)
apply a (attached by_mode text) o = set_count by_mode text (parse_count text) o
apply a bad o = err (invalid_option a)
apply a operand o = ok (record o { files = o.files ++ a ∷ [] })

unfoldable pub parse_args : List Bytes → Options → Result Message Options
unfolding apply classify
parse_args [] o = ok o
parse_args (a ∷ []) o = apply a (classify a) o
parse_args (a ∷ b ∷ args) o = elim (classify a) [
  | dashes ↦ ok (record o { files = o.files ++ b ∷ args })
  | next_count c ↦ set_count (c == b'c') b (parse_count b) o >>= parse_args args
  | kind ↦ apply a kind o >>= parse_args (b ∷ args)
]

-- What one file adds to the output, and the messages about it.
unfoldable pub header : Bool → Bool → Bytes → Bytes
header show first name =
    if show
    then (if first then [] else newline ∷ [])
      ++ codes "==> "
      ++ (if bytes_eq name (codes "-") then codes "standard input" else name)
      ++ codes " <==\n"
    else []

unfoldable pub body : Options → File → Bytes × Bool
unfolding first_lines meets_end
body o f = if o.by_mode then (take o.count f.bytes, f.broken && ltb (length f.bytes) o.count) else (
  first_lines o.count (read_lines f.bytes),
  f.broken && meets_end o.count (read_lines f.bytes),
)

unfoldable pub reading_error : Bool → Bytes → List Message
reading_error failed name = if failed then error_reading name ∷ [] else []

unfoldable pub head_file : Options → Bool → Bool → Bytes → Option File → Bytes × List Message
unfolding header body reading_error
head_file o show first name none = ([], cannot_open name ∷ [])
head_file o show first name (some f) =
    let (text, failed) = body o f in
    (header show first name ++ text, reading_error failed name ++ reading_error (not f.closes) name)

-- The loop over the files; the first is the one at index 0, whether it opens or not.
unfoldable pub head_files : Options → Bool → Files → Bool → List Bytes → Bytes × List Message
unfolding head_file
head_files o show files first [] = ([], [])
head_files o show files first (name ∷ names) =
    let (out, messages) = head_file o show first name (files name) in
    let (out', messages') = head_files o show files false names in
    (out ++ out', messages ++ messages')

pub record Run : Type 0 where
  pub status : ℕ
  pub out : Bytes
  pub messages : List Message

-- The exit status is 1 if there was a message.
unfoldable pub report : Bool → Bytes × List Message → Run
report flushes (out, messages) =
    let all = messages ++ (if flushes then [] else write_error ∷ []) in
    record { status = status_of all; out = out; messages = all }

unfoldable pub run_options : Files → Bool → Result Message Options → Run
unfolding report head_files
run_options files flushes (err m) = record { status = 1; out = []; messages = m ∷ [] }
run_options files flushes (ok o) =
    let names = default_names o.files in
    let show = (ltb 1 (length names) || o.verbose) && not o.quiet in
    report flushes (head_files o show files true names)

unfoldable pub cmd_head : Files → Bool → List Bytes → Run
unfolding run_options parse_args expand_short_options
cmd_head files flushes args =
    run_options files flushes (parse_args (expand_short_options args (codes "nc")) fresh)
