-- ===== src/Tr/Command/Laws.antt =====
-- What `cmdTr` does with its arguments and its input.
use ba.Base.{
  ◌≡◌, ◌≢◌, refl, ap, Bool, true, false, not, ◌∷◌, [], ◌∙◌, List, Option, none, some, Bytes, codes,
  arith, ◌++◌, select, contains, Source,
}
use ba.Tr.Expand.{
  Expansion, expanded, unknown_class, reverse_order, panic, out_of_fuel, expand_set, expand_loop,
  round, class_at, class_step, index_close,
}
use ba.Tr.Stream.Laws.{run_delete-select}
use ba.Tr.Command.{
  Run, exits, Message, Options, Parsed, parsed, rejected, fresh, cluster, add_arg, add_operand,
  parse_args, want_sets, finish, choose, with_set, run_sets, run_options, run_parsed, cmd_tr,
}

-- Behind `--` every argument is an operand.
add_operand_plain :
    (a : Bytes) (o : Options) (c : Option Bytes)
    → o.no_more ≡ true
    → add_operand a o c ≡ parsed (record o { sets = o.sets ++ a ∷ [] })
unfolding add_operand
add_operand_plain a o none h = refl
add_operand_plain a o (some s) h = rw h

-- `tr -d -- SET`, for every text that denotes a set of bytes: exit status 0, and on standard output
-- the input without the members of the set.
pub cmd_tr-delete :
    (s a set : Bytes)
    → expand_set a ≡ expanded set
    → cmd_tr (record { bytes = s; broken = false }) true (codes "-d" ∷ codes "--" ∷ a ∷ [])
      ≡ exits 0 (select (λ b. not (contains set b)) s) none
unfolding cmd_tr
cmd_tr-delete s a set e =
    ap (run_parsed (record { bytes = s; broken = false }) true) parse_delete
    ∙ unfold run_parsed run_options want_sets run_sets with_set choose finish in
      ground (arith, e, run_delete-select s set [])
  where
    parse_delete :
        parse_args (codes "-d" ∷ codes "--" ∷ a ∷ []) fresh
        ≡ parsed (record {
          del = true;
          squeeze = false;
          complement = false;
          sets = a ∷ [];
          no_more = true;
        })
    parse_delete =
        unfold parse_args add_arg in
        ground
          (arith, add_operand_plain a (record fresh { del = true; no_more = true }) (cluster a))

-- A specification that begins with `[:]` crashes `expandSet`: the slice `s[i+2 : i+end]` is `s[2:1]`.
pub expand_set-panic : (s : Bytes) → expand_set (b'[' ∷ b':' ∷ b']' ∷ s) ≡ panic
unfolding expand_set expand_loop round class_at class_step index_close
expand_set-panic s = refl

finish-nonzero :
    (stdin : Source) (flushes : Bool) (out o : Bytes) (m : Option Message)
    → stdin.broken ≡ true
    → finish stdin flushes out ≢ exits 0 o m
unfolding finish
finish-nonzero stdin flushes out o m h = ground arith

choose-nonzero :
    (stdin : Source) (flushes : Bool) (p : Options) (set1 set2 o : Bytes) (m : Option Message)
    → stdin.broken ≡ true
    → choose stdin flushes p set1 set2 ≢ exits 0 o m
unfolding choose
choose-nonzero stdin flushes p set1 set2 o m h = grind (arith, finish-nonzero)

with_set-nonzero :
    (e : Expansion) (k : Bytes → Run) (o : Bytes) (m : Option Message)
    → ((set : Bytes) → k set ≢ exits 0 o m)
    → with_set e k ≢ exits 0 o m
unfolding with_set
with_set-nonzero (expanded set) k o m h = h set
with_set-nonzero (unknown_class class) k o m h = λ e. ground arith
with_set-nonzero (reverse_order range) k o m h = λ e. ground arith
with_set-nonzero panic k o m h = λ e. ground arith
with_set-nonzero out_of_fuel k o m h = λ e. ground arith

run_sets-nonzero :
    (stdin : Source) (flushes : Bool) (p : Options) (sets : List Bytes) (o : Bytes)
    (m : Option Message)
    → stdin.broken ≡ true
    → run_sets stdin flushes p sets ≢ exits 0 o m
unfolding run_sets
run_sets-nonzero stdin flushes p [] o m h = λ e. ground arith
run_sets-nonzero stdin flushes p (a ∷ []) o m h =
    with_set-nonzero (expand_set a) _ o m λ set. choose-nonzero stdin flushes p _ [] o m h
run_sets-nonzero stdin flushes p (a ∷ b ∷ rest) o m h =
    with_set-nonzero (expand_set a) _ o m λ set.
      with_set-nonzero (expand_set b) _ o m λ set2. choose-nonzero stdin flushes p _ set2 o m h

run_options-nonzero :
    (stdin : Source) (flushes : Bool) (p : Options) (o : Bytes) (m : Option Message)
    → stdin.broken ≡ true
    → run_options stdin flushes p ≢ exits 0 o m
unfolding run_options
run_options-nonzero stdin flushes p o m h =
    ground (arith, run_sets-nonzero stdin flushes p p.sets o m h)

-- Where standard input breaks off, no arguments make `tr` report success.
pub cmd_tr_broken :
    (stdin : Source) (flushes : Bool) (args : List Bytes) (o : Bytes) (m : Option Message)
    → stdin.broken ≡ true
    → cmd_tr stdin flushes args ≢ exits 0 o m
unfolding cmd_tr
cmd_tr_broken stdin flushes args o m h = go (parse_args args fresh)
  where
    go : (p : Parsed) → run_parsed stdin flushes p ≢ exits 0 o m
    go (parsed p) = unfold run_parsed in run_options-nonzero stdin flushes p o m h
    go (rejected message) = unfold run_parsed in λ e. ground arith
