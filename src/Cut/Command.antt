-- ===== src/Cut/Command.antt =====
-- The arguments of `cmdCut`: the loop over them, `setList` and `parseCluster`. Messages are data.
use ba.Base.{
  ℕ, Bool, true, false, not, ◌||◌, List, [], ◌∷◌, ◌++◌, Option, none, some, Bytes, codes, ◌==◌,
  if◌then◌else◌, bytes_eq, Result, ok, err, ◌>>=◌,
}
use ba.Base.Split.{strip_prefix}
use ba.Cut.Lists.{ListError}

pub data CutMode : Type 0 where
  mode_none mode_fields mode_chars mode_bytes : CutMode

pub data Message : Type 0 where
  missing_argument : Bytes → Message
  invalid_option : ℕ → Message
  one_list no_list bad_delimiter fields_only : Message
  bad_list : CutMode → ListError → Message
  cannot_open : Bytes → Message
  error_reading : Bytes → Message
  write_error : Message

pub record CutOptions : Type 0 where
  pub mode : CutMode
  pub list : Bytes
  pub delim : Bytes
  pub out_delim : Bytes
  pub out_set : Bool
  pub only_delim : Bool
  pub complement : Bool
  pub zero_term : Bool
  pub names : List Bytes

abbrev pub fresh : CutOptions
fresh = record {
  mode = mode_none;
  list = [];
  delim = 9 ∷ [];
  out_delim = [];
  out_set = false;
  only_delim = false;
  complement = false;
  zero_term = false;
  names = [];
}

abbrev pub mode_of : ℕ → CutMode
mode_of kind = if kind == b'c' then mode_chars else if kind == b'b' then mode_bytes else mode_fields

-- `o.mode != cutModeNone && o.mode != mode`
abbrev pub is_other : CutMode → CutMode → Bool
is_other mode_none mode = false
is_other mode_fields mode_fields = false
is_other mode_chars mode_chars = false
is_other mode_bytes mode_bytes = false
is_other given mode = true

unfoldable pub set_list : ℕ → Bytes → CutOptions → Result Message CutOptions
set_list kind list o =
    if is_other o.mode (mode_of kind)
    then err one_list
    else ok (record o { mode = mode_of kind; list = list })

-- What the next argument is for.
pub data Want : Type 0 where
  want_list : ℕ → Want
  want_delim : Want
  want_out_delim : Want

unfoldable pub supply : Want → Bytes → CutOptions → Result Message CutOptions
unfolding set_list
supply (want_list kind) value o = set_list kind value o
supply want_delim value o = ok (record o { delim = value })
supply want_out_delim value o = ok (record o { out_delim = value; out_set = true })

-- How the message names an option whose argument is missing.
abbrev pub name_of : Want → Bytes
name_of (want_list kind) = kind ∷ []
name_of want_delim = b'd' ∷ []
name_of want_out_delim = codes "-output-delimiter"

abbrev pub Step : Type 0
Step = CutOptions × Option Want

-- A value in the same word, or the next argument if it is empty.
unfoldable pub take_value : Want → Bytes → CutOptions → Result Message Step
unfolding supply
take_value want [] o = ok (o, some want)
take_value want (c ∷ s) o = supply want (c ∷ s) o >>= λ o'. ok (o', none)

-- `parseCluster`, from a letter on.
unfoldable pub parse_cluster : Bytes → CutOptions → Result Message Step
unfolding take_value
parse_cluster [] o = ok (o, none)
parse_cluster (c ∷ s) o =
    let only = parse_cluster s (record o { only_delim = true }) in
    let zero_terminated = parse_cluster s (record o { zero_term = true }) in
    let same = parse_cluster s o in
    if c == b's'
    then only
    else if c == b'z'
    then zero_terminated
    else if c == b'n'
    then same
    else if c == b'd'
    then take_value want_delim s o
    else if (c == b'b') || (c == b'c') || (c == b'f')
    then take_value (want_list c) s o
    else err (invalid_option c)

abbrev pub is_list_letter : ℕ → Bool
is_list_letter c = (c == b'f') || (c == b'c') || (c == b'b')

-- The last two cases, and `-d` and a list with its value in the same word.
unfoldable pub short_arg : Bytes → CutOptions → Result Message Step
unfolding parse_cluster set_list
short_arg (c ∷ d ∷ []) o =
    if c == b'-'
    then parse_cluster (d ∷ []) o
    else ok (record o { names = o.names ++ (c ∷ d ∷ []) ∷ [] }, none)
short_arg (c ∷ d ∷ e ∷ s) o =
    if not (c == b'-')
    then ok (record o { names = o.names ++ (c ∷ d ∷ e ∷ s) ∷ [] }, none)
    else if is_list_letter d
    then (set_list d (e ∷ s) o >>= λ o'. ok (o', none))
    else if d == b'd'
    then ok (record o { delim = e ∷ s }, none)
    else parse_cluster (d ∷ e ∷ s) o
short_arg a o = ok (record o { names = o.names ++ a ∷ [] }, none)

-- `--fields=` and its kind, with what follows each prefix.
unfoldable pub valued : Bytes → List (Option Bytes) → CutOptions → Result Message Step
unfolding set_list short_arg
valued a (some list ∷ rest) o = set_list b'f' list o >>= λ o'. ok (o', none)
valued a (none ∷ some list ∷ rest) o = set_list b'c' list o >>= λ o'. ok (o', none)
valued a (none ∷ none ∷ some list ∷ rest) o = set_list b'b' list o >>= λ o'. ok (o', none)
valued a (none ∷ none ∷ none ∷ some text ∷ rest) o = ok (record o { delim = text }, none)
valued a (none ∷ none ∷ none ∷ none ∷ some text ∷ rest) o =
    ok (record o { out_delim = text; out_set = true }, none)
valued a others o = short_arg a o

unfoldable pub prefixes : Bytes → List (Option Bytes)
unfolding strip_prefix
prefixes a =
    strip_prefix (codes "--fields=") a
    ∷ strip_prefix (codes "--characters=") a
    ∷ strip_prefix (codes "--bytes=") a
    ∷ strip_prefix (codes "--delimiter=") a
    ∷ strip_prefix (codes "--output-delimiter=") a
    ∷ []

-- One argument but `--`.
unfoldable pub add_arg : Bytes → CutOptions → Result Message Step
unfolding valued prefixes
add_arg a o =
    if bytes_eq a (codes "-s") || bytes_eq a (codes "--only-delimited")
    then ok (record o { only_delim = true }, none)
    else if bytes_eq a (codes "--complement")
    then ok (record o { complement = true }, none)
    else if bytes_eq a (codes "-z") || bytes_eq a (codes "--zero-terminated")
    then ok (record o { zero_term = true }, none)
    else if bytes_eq a (codes "-n")
    then ok (o, none)
    else if bytes_eq a (codes "-f") || bytes_eq a (codes "--fields")
    then ok (o, some (want_list b'f'))
    else if bytes_eq a (codes "-c") || bytes_eq a (codes "--characters")
    then ok (o, some (want_list b'c'))
    else if bytes_eq a (codes "-b") || bytes_eq a (codes "--bytes")
    then ok (o, some (want_list b'b'))
    else if bytes_eq a (codes "-d") || bytes_eq a (codes "--delimiter")
    then ok (o, some want_delim)
    else if bytes_eq a (codes "--output-delimiter")
    then ok (o, some want_out_delim)
    else valued a (prefixes a) o

unfoldable pub last_arg : Step → Result Message CutOptions
last_arg (o, none) = ok o
last_arg (o, some want) = err (missing_argument (name_of want))

unfoldable pub parse_args : List Bytes → CutOptions → Result Message CutOptions
unfolding add_arg last_arg supply
parse_args [] o = ok o
parse_args (a ∷ []) o = if bytes_eq a (codes "--") then ok o else add_arg a o >>= last_arg
parse_args (a ∷ b ∷ args) o = elim (bytes_eq a (codes "--")) [
  | true ↦ ok (record o { names = o.names ++ b ∷ args })
  | false ↦ add_arg a o >>= λ step. elim step.1 [
    | none ↦ parse_args (b ∷ args) step.0
    | some want ↦ supply want b step.0 >>= parse_args args
  ]
]
