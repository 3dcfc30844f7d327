-- ===== src/Tail/Command.antt =====
-- `cmdTail`, `parseTailCount` and `followFile` of tail.go. What the system does is a parameter;
-- messages are data. What `followFile` writes is passed on.
pub mod Laws
mod Examples
use ba.Base.{
  starts_dash, status_of, default_names, ℕ, zero, suc, ◌+◌, ◌-◌, Bool, true, false, not, ◌&&◌, ◌||◌,
  List, [], ◌∷◌, ◌++◌, Option, none, some, Bytes, codes, ltb, ◌==◌, if◌then◌else◌, length, drop,
  bytes_eq, File, Files, Result, ok, err, ◌>>=◌,
}
use ba.Base.Lines.{newline, read_lines}
use ba.Base.Split.{strip_prefix}
use ba.Util.Options.{expand_short_options}
use ba.Head.Count.{parse_count, trim_space}
use ba.Tail.{lines_from, emit_last_lines, emit_last_bytes}

pub data Message : Type 0 where
  missing_argument : ℕ → Message
  invalid_number : Bytes → Message
  invalid_option : Bytes → Message
  many_followed : Message
  cannot_open : Bytes → Message
  error_reading : Bytes → Message
  write_error : Message

-- A count with its sign taken off, and whether it is one from the start.
unfoldable pub signed_count : Bool → Option ℕ → Option (ℕ × Bool)
signed_count from_start none = none
signed_count from_start (some n) = some (n, from_start)

unfoldable pub count_behind : Bytes → Option (ℕ × Bool)
unfolding signed_count
count_behind [] = signed_count false (parse_count [])
count_behind (c ∷ s) =
    if c == b'+'
    then signed_count true (parse_count s)
    else if c == b'-'
    then signed_count false (parse_count s)
    else signed_count false (parse_count (c ∷ s))

unfoldable pub parse_tail_count : Bytes → Option (ℕ × Bool)
unfolding count_behind
parse_tail_count s = count_behind (trim_space s)

pub record Options : Type 0 where
  pub count : ℕ
  pub by_mode : Bool
  pub from_start : Bool
  pub follow : Bool
  pub quiet : Bool
  pub verbose : Bool
  pub names : List Bytes

abbrev pub fresh : Options
fresh = record {
  count = 10;
  by_mode = false;
  from_start = false;
  follow = false;
  quiet = false;
  verbose = false;
  names = [];
}

unfoldable pub set_count : Bool → Bytes → Option (ℕ × Bool) → Options → Result Message Options
set_count by_mode text none o = err (invalid_number text)
set_count by_mode text (some (n, from_start)) o =
    ok (record o { count = n; from_start = from_start; by_mode = by_mode })

-- `strings.HasPrefix(a, "-n")`, then `"-c"`, then the last two cases
unfoldable pub attached : Bytes → Option Bytes → Option Bytes → Options → Result Message Options
unfolding set_count
attached a (some text) c o = set_count false text (parse_tail_count text) o
attached a none (some text) o = set_count true text (parse_tail_count text) o
attached a none none o =
    if ltb 1 (length a) && starts_dash a
    then err (invalid_option a)
    else ok (record o { names = o.names ++ a ∷ [] })

-- `-n` or `-c` alone, which take the next argument.
unfoldable pub wants_count : Bytes → Bool
wants_count a = bytes_eq a (codes "-n") || bytes_eq a (codes "-c")

-- One argument but `--`, `-n` and `-c`.
unfoldable pub add_arg : Bytes → Options → Result Message Options
unfolding attached strip_prefix
add_arg a o =
    if bytes_eq a (codes "-f") || bytes_eq a (codes "--follow")
    then ok (record o { follow = true })
    else if bytes_eq a (codes "-q") || bytes_eq a (codes "--quiet") || bytes_eq a (codes "--silent")
    then ok (record o { quiet = true })
    else if bytes_eq a (codes "-v") || bytes_eq a (codes "--verbose")
    then ok (record o { verbose = true })
    else attached a (strip_prefix (codes "-n") a) (strip_prefix (codes "-c") a) o

unfoldable pub last_arg : Bytes → Options → Result Message Options
unfolding add_arg wants_count
last_arg a o =
    if bytes_eq a (codes "--")
    then ok o
    else if wants_count a
    then err (missing_argument (if bytes_eq a (codes "-c") then b'c' else b'n'))
    else add_arg a o

unfoldable pub parse_args : List Bytes → Options → Result Message Options
unfolding last_arg set_count add_arg wants_count
parse_args [] o = ok o
parse_args (a ∷ []) o = last_arg a o
parse_args (a ∷ b ∷ args) o = elim (bytes_eq a (codes "--")) [
  | true ↦ ok (record o { names = o.names ++ b ∷ args })
  | false ↦ elim (wants_count a) [
    | true ↦ set_count (bytes_eq a (codes "-c")) b (parse_tail_count b) o >>= parse_args args
    | false ↦ add_arg a o >>= parse_args (b ∷ args)
  ]
]

-- What a `Read` of a file that is watched gives.
pub data Read : Type 0 where
  chunk : Bytes → Read
  at_end : Read
  failure : Read

-- `reads` are the pieces in which the bytes of a file arrive; `appended` is what `followFile` reads,
-- for as long as it is watched.
pub record World : Type 0 where
  pub files : Files
  pub reads : Bytes → List Bytes
  pub is_os_file : Bytes → Bool
  pub flushes : Bytes → Bool
  pub appended : Bytes → List Read

-- The output, and whether the loop has ended, which it does at an error only.
unfoldable pub follow_file : List Read → Bytes × Bool
follow_file [] = ([], false)
follow_file (chunk s ∷ rs) = let (out, ended) = follow_file rs in (s ++ out, ended)
follow_file (at_end ∷ rs) = follow_file rs
follow_file (failure ∷ rs) = ([], true)

-- `emitLastLines` and `emitLastBytes` on an input that may end in a read error: the output, and
-- whether the error is returned. The last lines or bytes are lost with an error.
unfoldable pub emit_lines : ℕ → Bool → File → Bytes × Bool
emit_lines n from_start f =
    if from_start
    then (emit_last_lines n true f.bytes, f.broken)
    else ((if f.broken then [] else emit_last_lines n false f.bytes), f.broken)

unfoldable pub emit_bytes : ℕ → Bool → List Bytes → File → Bytes × Bool
emit_bytes n from_start chunks f =
    if from_start
    then (emit_last_bytes n true chunks, f.broken)
    else ((if f.broken then [] else emit_last_bytes n false chunks), f.broken)

unfoldable pub header : Bool → Bool → Bytes → Bytes
header show first name =
    if show
    then (if first then [] else newline ∷ [])
      ++ (codes "==> "
          ++ ((if bytes_eq name (codes "-") then codes "standard input" else name)
              ++ codes " <==\n"))
    else []

-- What comes after a file: the next one, the early return, or nothing while a file is watched.
pub data Outcome : Type 0 where
  next stop watching : Outcome

abbrev pub Effect : Type 0
Effect = Bytes × List Message × Outcome

unfoldable pub close_file : File → Bytes → List Message
close_file f name = if f.closes then [] else error_reading name ∷ []

-- Behind the flush.
unfoldable pub follow_or_close : Options → World → Bool → Bytes → File → Effect
unfolding follow_file close_file
follow_or_close o w is_last name f =
    let (more, ended) = follow_file (w.appended name) in
    if o.follow && not (bytes_eq name (codes "-")) && (w.is_os_file name && is_last)
    then if ended
      then (more, error_reading name ∷ close_file f name, next)
      else (more, [], watching)
    else ([], close_file f name, next)

unfoldable pub tail_file : Options → World → Bool → Bool → Bool → Bytes → Option File → Effect
unfolding header emit_lines emit_bytes follow_or_close
tail_file o w show first is_last name none = ([], cannot_open name ∷ [], next)
tail_file o w show first is_last name (some f) =
    let (text, failed) =
      if o.by_mode
      then emit_bytes o.count o.from_start (w.reads name) f
      else emit_lines o.count o.from_start f in
    let out = header show first name ++ text in
    let messages = if failed then error_reading name ∷ [] else [] in
    let (more, messages', outcome) = follow_or_close o w is_last name f in
    if w.flushes name
    then (out ++ more, messages ++ messages', outcome)
    else (out, messages ++ write_error ∷ [], stop)

abbrev pub is_empty : List Bytes → Bool
is_empty [] = true
is_empty (x ∷ xs) = false

unfoldable pub followed_by : Effect → Effect → Effect
followed_by (out, messages, next) (out', messages', outcome) =
    (out ++ out', messages ++ messages', outcome)
followed_by (out, messages, stop) rest = (out, messages, stop)
followed_by (out, messages, watching) rest = (out, messages, watching)

unfoldable pub tail_files : Options → World → Bool → Bool → List Bytes → Effect
unfolding tail_file followed_by
tail_files o w show first [] = ([], [], next)
tail_files o w show first (name ∷ names) =
    followed_by (tail_file o w show first (is_empty names) name (w.files name))
      (tail_files o w show false names)

-- `status` is `none` while a file is watched.
pub record Run : Type 0 where
  pub status : Option ℕ
  pub out : Bytes
  pub messages : List Message

unfoldable pub report : Effect → Run
report (out, messages, next) = record {
  status = some (status_of messages);
  out = out;
  messages = messages;
}
report (out, messages, stop) = record { status = some 1; out = out; messages = messages }
report (out, messages, watching) = record { status = none; out = out; messages = messages }

unfoldable pub run_options : World → Result Message Options → Run
unfolding report tail_files
run_options w (err m) = record { status = some 1; out = []; messages = m ∷ [] }
run_options w (ok o) =
    let names = default_names o.names in
    let show = (ltb 1 (length names) || o.verbose) && not o.quiet in
    if o.follow && ltb 1 (length names)
    then record { status = some 1; out = []; messages = many_followed ∷ [] }
    else report (tail_files o w show true names)

unfoldable pub cmd_tail : World → List Bytes → Run
unfolding run_options parse_args expand_short_options
cmd_tail w args = run_options w (parse_args (expand_short_options args (codes "nc")) fresh)
