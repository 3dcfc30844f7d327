-- ===== src/Tr/Command.antt =====
-- `cmdTr` of tr.go: the options, the operands, the choice of the filter and the exit status.
-- A write error is seen at `Flush`; `flushes` says whether that succeeds.
pub mod Laws
use ba.Base.{
  ℕ, zero, suc, ◌+◌, ◌-◌, Bool, true, false, not, ◌&&◌, ◌||◌, List, [], ◌∷◌, ◌++◌, Option, none,
  some, Bytes, codes, ltb, ◌==◌, if◌then◌else◌, length, get_or, bytes_eq, Source, passed_on,
}
use ba.Tr.Sets.{complement_set}
use ba.Tr.Expand.{Expansion, expanded, unknown_class, reverse_order, panic, out_of_fuel, expand_set}
use ba.Tr.Stream.{run_delete, run_translate, run_squeeze_only}

-- The messages of `fatalf("tr", …)`.
pub data Message : Type 0 where
  invalid_option : Bytes → Message
  missing_operand : Message
  missing_operand_after : Bytes → Message
  extra_operand : Bytes → Message
  bad_class : Bytes → Message
  bad_range : Bytes → Message
  read_error : Message
  write_error : Message

-- A run returns its status, with standard output and the message if there is one, or it crashes.
pub data Run : Type 0 where
  exits : ℕ → Bytes → Option Message → Run
  crashes : Run

pub record Options : Type 0 where
  pub del : Bool
  pub squeeze : Bool
  pub complement : Bool
  pub sets : List Bytes
  pub no_more : Bool

pub data Parsed : Type 0 where
  parsed : Options → Parsed
  rejected : Message → Parsed

abbrev pub fresh : Options
fresh = record { del = false; squeeze = false; complement = false; sets = []; no_more = false }

-- `for _, c := range a[1:]`; the flag is `handled`.
unfoldable pub letters : Bytes → Options → Bool → Options × Bool
letters [] o handled = (o, handled)
letters (c ∷ s) o handled =
    let o' : Options =
      if c == b'd'
      then record o { del = true }
      else if c == b's'
      then record o { squeeze = true }
      else if (c == b'c') || (c == b'C')
      then record o { complement = true }
      else o in
    let known = (c == b'd') || (c == b's') || (c == b'c') || (c == b'C') in
    letters s o' (known && handled)

-- `len(a) > 1 && a[0] == '-'`: the letters of a cluster.
unfoldable pub cluster : Bytes → Option Bytes
cluster [] = none
cluster (c ∷ []) = none
cluster (c ∷ d ∷ s) = if c == b'-' then some (d ∷ s) else none

unfoldable pub add_letters : Bytes → Options × Bool → Parsed
add_letters a (o, true) = parsed o
add_letters a (o, false) = rejected (invalid_option a)

unfoldable pub add_operand : Bytes → Options → Option Bytes → Parsed
unfolding letters add_letters
add_operand a o none = parsed (record o { sets = o.sets ++ a ∷ [] })
add_operand a o (some s) =
    if o.no_more
    then parsed (record o { sets = o.sets ++ a ∷ [] })
    else add_letters a (letters s o true)

-- One round of the loop over the arguments.
unfoldable pub add_arg : Bytes → Options → Parsed
unfolding add_operand cluster
add_arg a o =
    if not o.no_more && bytes_eq a (codes "--")
    then parsed (record o { no_more = true })
    else if not o.no_more && bytes_eq a (codes "--delete")
    then parsed (record o { del = true })
    else if not o.no_more && bytes_eq a (codes "--squeeze-repeats")
    then parsed (record o { squeeze = true })
    else if not o.no_more && bytes_eq a (codes "--complement")
    then parsed (record o { complement = true })
    else add_operand a o (cluster a)

unfoldable pub parse_args : List Bytes → Options → Parsed
unfolding add_arg
parse_args [] o = parsed o
parse_args (a ∷ args) o = elim (add_arg a o) [
  | parsed o' ↦ parse_args args o'
  | rejected m ↦ rejected m
]

unfoldable pub want_sets : Options → ℕ
want_sets o =
    if (o.del && not o.squeeze) || (o.squeeze && not o.del && (length o.sets == 1)) then 1 else 2

-- What follows once the filter has ended: a read error returns without `Flush`.
unfoldable pub finish : Source → Bool → Bytes → Run
unfolding passed_on
finish stdin flushes out =
    if stdin.broken
    then exits 1 (passed_on out) (some read_error)
    else if flushes
    then exits 0 out none
    else exits 1 (passed_on out) (some write_error)

-- The `switch` over the filters.
unfoldable pub choose : Source → Bool → Options → Bytes → Bytes → Run
unfolding finish
choose stdin flushes o set1 set2 =
    if o.del
    then finish stdin flushes (run_delete stdin.bytes set1 o.squeeze set2)
    else if ltb 0 (length set2)
    then finish stdin flushes (run_translate stdin.bytes set1 set2 o.squeeze)
    else if o.squeeze
    then finish stdin flushes (run_squeeze_only stdin.bytes set1)
    else exits 1 [] (some (missing_operand_after (get_or o.sets 0 [])))

-- `fatalf("tr", "%v", err); return 1` for an error of `expandSet`, and the bytes otherwise.
unfoldable pub with_set : Expansion → (Bytes → Run) → Run
with_set (expanded bytes) k = k bytes
with_set (unknown_class class) k = exits 1 [] (some (bad_class class))
with_set (reverse_order range) k = exits 1 [] (some (bad_range range))
with_set panic k = crashes
with_set out_of_fuel k = crashes

unfoldable pub run_sets : Source → Bool → Options → List Bytes → Run
unfolding with_set choose
run_sets stdin flushes o [] = exits 1 [] (some missing_operand)
run_sets stdin flushes o (a ∷ []) =
    with_set (expand_set a)
      λ set. choose stdin flushes o (if o.complement then complement_set set else set) []
run_sets stdin flushes o (a ∷ b ∷ rest) = with_set (expand_set a) λ set.
    with_set (expand_set b)
      λ set2. choose stdin flushes o (if o.complement then complement_set set else set) set2

unfoldable pub run_options : Source → Bool → Options → Run
unfolding want_sets run_sets
run_options stdin flushes o =
    if length o.sets == 0
    then exits 1 [] (some missing_operand)
    else if length o.sets == want_sets o
    then run_sets stdin flushes o o.sets
    else if ltb (length o.sets) (want_sets o)
    then exits 1 [] (some missing_operand)
    else exits 1 [] (some (extra_operand (get_or o.sets (want_sets o) [])))

unfoldable pub run_parsed : Source → Bool → Parsed → Run
unfolding run_options
run_parsed stdin flushes (parsed o) = run_options stdin flushes o
run_parsed stdin flushes (rejected m) = exits 1 [] (some m)

unfoldable pub cmd_tr : Source → Bool → List Bytes → Run
unfolding run_parsed parse_args
cmd_tr stdin flushes args = run_parsed stdin flushes (parse_args args fresh)
