-- ===== src/Tabs/Run.antt =====
-- `forEachInput`, `cmdExpand` and `cmdUnexpand`. The files by name, and whether the last flush of the
-- output succeeds, are parameters.
use ba.Base.{
  ℕ, Bool, false, not, List, [], ◌∷◌, ◌++◌, Option, none, some, Bytes, if◌then◌else◌, unless,
  status_of, default_names, File, Files, Result, ok, err,
}
use ba.Tabs.Stops.{TabStops, finalize}
use ba.Tabs.Args.{
  Message, bad_stops, cannot_open, read_error, write_error, Flags, Parsed, fresh, expand_extra,
  unexpand_extra, parse_tab_args,
}
use ba.Tabs.Expand
use ba.Tabs.Unexpand

pub record Run : Type 0 where
  pub status : ℕ
  pub out : Bytes
  pub messages : List Message

abbrev pub failed : Message → Run
failed m = record { status = 1; out = []; messages = m ∷ [] }

-- What the files come to: the output, the messages, and the state behind them.
pub record Inputs (State : Type 0) : Type 0 where
  pub out : Bytes
  pub messages : List Message
  pub state : State

module _ {State : Type 0} (run : State → Bytes → Bytes × State) where
  unfoldable pub input_file : Bytes → State → Option File → Inputs State
  input_file name s none = record { out = []; messages = cannot_open name ∷ []; state = s }
  input_file name s (some f) = record {
    out = (run s f.bytes).0;
    messages = unless (not f.broken) (read_error name);
    state = (run s f.bytes).1;
  }

  unfoldable pub input_files : Files → State → List Bytes → Inputs State
  unfolding input_file
  input_files files s [] = record { out = []; messages = []; state = s }
  input_files files s (name ∷ names) =
      let first = input_file name s (files name) in
      let others = input_files files first.state names in
      record {
        out = first.out ++ others.out;
        messages = first.messages ++ others.messages;
        state = others.state;
      }

  unfoldable pub for_each_input : Files → State → List Bytes → Inputs State
  unfolding input_files
  for_each_input files s names = input_files files s (default_names names)

-- The last flush; what it does not write is left out of the output.
abbrev pub report : Bool → Bytes → List Message → Run
report flushes out messages =
    if flushes
    then record { status = status_of messages; out = out; messages = messages }
    else record { status = 1; out = out; messages = messages ++ write_error ∷ [] }

abbrev pub settled : Result Message Parsed → Result Message (TabStops × Parsed)
settled (err m) = err m
settled (ok p) = elim (finalize p.tabs) [ ok tabs ↦ ok (tabs, p) | err e ↦ err (bad_stops e) ]

unfoldable pub run_expand : Files → Bool → Result Message (TabStops × Parsed) → Run
unfolding for_each_input
run_expand files flushes (err m) = failed m
run_expand files flushes (ok (tabs, p)) =
    let all_ =
      for_each_input (Expand.expand_bytes tabs p.flags.initial_only) files Expand.line_start
        p.files in
    report flushes all_.out all_.messages

unfoldable pub cmd_expand : Files → Bool → List Bytes → Run
unfolding finalize run_expand parse_tab_args expand_extra
cmd_expand files flushes args =
    run_expand files flushes (settled (parse_tab_args expand_extra fresh args))

-- `--first-only` undoes `-a` and what `-t` implies.
abbrev pub is_entire : Flags → Bool
is_entire f = if f.first_only then false else f.entire_line

unfoldable pub run_unexpand : Files → Bool → Result Message (TabStops × Parsed) → Run
unfolding for_each_input
run_unexpand files flushes (err m) = failed m
run_unexpand files flushes (ok (tabs, p)) =
    let all_ =
      for_each_input (Unexpand.unexpand_bytes tabs (is_entire p.flags)) files Unexpand.line_start
        p.files in
    report flushes (all_.out ++ (Unexpand.flush_pending all_.state).0) all_.messages

unfoldable pub cmd_unexpand : Files → Bool → List Bytes → Run
unfolding finalize run_unexpand parse_tab_args unexpand_extra
cmd_unexpand files flushes args =
    run_unexpand files flushes (settled (parse_tab_args unexpand_extra fresh args))
