-- ===== src/Uniq/Command.antt =====
-- `cmdUniq`: its options, `uniqNumber`, `uniqMethod`, and the run on a file. Opening, creating and
-- closing files are a parameter; messages are data. A failed write is met at `Flush`.

use ba.Base.{
  ℕ, Bool, true, false, ◌&&◌, ◌||◌, List, [], ◌∷◌, ◌++◌, Option, none, some, Bytes, codes, ltb,
  ◌==◌, if◌then◌else◌, bytes_eq, Result, ok, err, ◌>>=◌,
}
use ba.Base.Split.{strip_prefix}
use ba.Head.Count.{parse_int}

pub data Message : Type 0 where
  missing_argument invalid_option : ℕ → Message
  invalid_number : ℕ → Bytes → Message
  repeat_counts group_exclusive : Message
  invalid_method : Bytes → Bool → Message
  extra_operand cannot_open same_files cannot_create read_error write_error out_close in_close :
      Bytes → Message

pub record Options : Type 0 where
  pub count : Bool
  pub only_dup : Bool
  pub only_uniq : Bool
  pub ignore_case : Bool
  pub zero_term : Bool
  pub fields : ℕ
  pub chars : ℕ
  pub check : Option ℕ
  pub all_repeat : Bytes
  pub group_mode : Bytes
  pub operands : List Bytes

abbrev pub fresh : Options
fresh = record {
  count = false;
  only_dup = false;
  only_uniq = false;
  ignore_case = false;
  zero_term = false;
  fields = 0;
  chars = 0;
  check = none;
  all_repeat = [];
  group_mode = [];
  operands = [];
}

-- The test of `uniqNumber` behind `strconv.Atoi`.
unfoldable pub not_negative : Option (Bool × ℕ) → Option ℕ
not_negative none = none
not_negative (some (negative, n)) = if negative && ltb 0 n then none else some n

unfoldable pub uniq_number : Bytes → Option ℕ
unfolding not_negative
uniq_number text = not_negative (parse_int text)

unfoldable pub store_number : ℕ → Bytes → Option ℕ → Options → Result Message Options
store_number c text none o = err (invalid_number c text)
store_number c text (some n) o =
    if c == b'f'
    then ok (record o { fields = n })
    else if c == b's'
    then ok (record o { chars = n })
    else ok (record o { check = some n })

unfoldable pub set_number : ℕ → Bytes → Options → Result Message Options
unfolding store_number uniq_number
set_number c text o = store_number c text (uniq_number text) o

abbrev pub is_flag : ℕ → Bool
is_flag c = (c == b'c') || (c == b'd') || (c == b'u') || (c == b'i') || (c == b'z') || (c == b'D')

unfoldable pub set_flag : ℕ → Options → Options
set_flag c o =
    if c == b'c'
    then record o { count = true }
    else if c == b'd'
    then record o { only_dup = true }
    else if c == b'u'
    then record o { only_uniq = true }
    else if c == b'i'
    then record o { ignore_case = true }
    else if c == b'z'
    then record o { zero_term = true }
    else record o { all_repeat = codes "none" }

-- The options so far, and the letter whose value is the next argument.
abbrev pub Step : Type 0
Step = Options × Option ℕ

-- The letter `c` takes a value: the rest of the word if there is one.
unfoldable pub take_value : ℕ → Bytes → Options → Result Message Step
unfolding set_number
take_value c [] o = ok (o, some c)
take_value c (d ∷ s) o = set_number c (d ∷ s) o >>= λ o'. ok (o', none)

unfoldable pub letters : Bytes → Options → Result Message Step
unfolding set_flag take_value
letters [] o = ok (o, none)
letters (c ∷ s) o =
    let rest = letters s (set_flag c o) in
    if is_flag c
    then rest
    else if (c == b'f') || (c == b's') || (c == b'w')
    then take_value c s o
    else err (invalid_option c)

unfoldable pub long_flag : Bytes → Option ℕ
long_flag a =
    if bytes_eq a (codes "--count")
    then some b'c'
    else if bytes_eq a (codes "--repeated")
    then some b'd'
    else if bytes_eq a (codes "--unique")
    then some b'u'
    else if bytes_eq a (codes "--ignore-case")
    then some b'i'
    else if bytes_eq a (codes "--zero-terminated")
    then some b'z'
    else if bytes_eq a (codes "--all-repeated")
    then some b'D'
    else none

-- The cases behind `--group`, with what follows each prefix.
unfoldable pub valued :
    Bytes
    → Option Bytes
    → Option Bytes
    → Option Bytes
    → Option Bytes
    → Options
    → Result Message Step
unfolding set_number letters
valued a (some method) f s w o = ok (record o { group_mode = method }, none)
valued a none (some text) s w o = set_number b'f' text o >>= λ o'. ok (o', none)
valued a none none (some text) w o = set_number b's' text o >>= λ o'. ok (o', none)
valued a none none none (some text) o = set_number b'w' text o >>= λ o'. ok (o', none)
valued (c ∷ d ∷ s) none none none none o =
    if c == b'-'
    then letters (d ∷ s) o
    else ok (record o { operands = o.operands ++ (c ∷ d ∷ s) ∷ [] }, none)
valued a none none none none o = ok (record o { operands = o.operands ++ a ∷ [] }, none)

unfoldable pub prefixed : Bytes → Option Bytes → Options → Result Message Step
unfolding valued strip_prefix
prefixed a (some method) o = ok (record o { all_repeat = method }, none)
prefixed a none o =
    if bytes_eq a (codes "--group")
    then ok (record o { group_mode = codes "separate" }, none)
    else valued a (strip_prefix (codes "--group=") a) (strip_prefix (codes "--skip-fields=") a)
        (strip_prefix (codes "--skip-chars=") a) (strip_prefix (codes "--check-chars=") a) o

unfoldable pub flag_or : Bytes → Option ℕ → Options → Result Message Step
unfolding set_flag prefixed strip_prefix
flag_or a (some c) o = ok (set_flag c o, none)
flag_or a none o = prefixed a (strip_prefix (codes "--all-repeated=") a) o

-- One argument but `--`.
unfoldable pub add_arg : Bytes → Options → Result Message Step
unfolding flag_or long_flag
add_arg a o = flag_or a (long_flag a) o

unfoldable pub last_arg : Step → Result Message Options
last_arg (o, none) = ok o
last_arg (o, some c) = err (missing_argument c)

unfoldable pub parse_args : List Bytes → Options → Result Message Options
unfolding add_arg last_arg set_number
parse_args [] o = ok o
parse_args (a ∷ []) o = if bytes_eq a (codes "--") then ok o else add_arg a o >>= last_arg
parse_args (a ∷ b ∷ args) o = elim (bytes_eq a (codes "--")) [
  | true ↦ ok (record o { operands = o.operands ++ b ∷ args })
  | false ↦ add_arg a o >>= λ step. elim step.1 [
    | none ↦ parse_args (b ∷ args) step.0
    | some c ↦ set_number c b step.0 >>= parse_args args
  ]
]
