-- ===== src/Tabs/Args.antt =====
-- `parseTabArgs` of expand.go, with the closures of both commands that see an argument first.
use ba.Base.{
  Bool, true, false, not, ◌&&◌, ◌||◌, List, [], ◌∷◌, ◌++◌, none, some, Bytes, codes, ltb, leb, ◌==◌,
  if◌then◌else◌, bytes_eq, length, Result, ok, err, ◌>>=◌,
}
use ba.Base.Split.{strip_prefix}
use ba.Tabs.Stops.{TabError, TabStops, no_stops, add_tab_spec}

pub data Message : Type 0 where
  needs_argument : Message
  bad_stops : TabError → Message
  invalid_option cannot_open read_error : Bytes → Message
  write_error : Message

-- The variables of the closures.
pub record Flags : Type 0 where
  pub initial_only : Bool
  pub entire_line : Bool
  pub first_only : Bool

pub record Parsed : Type 0 where
  pub tabs : TabStops
  pub files : List Bytes
  pub flags : Flags

abbrev pub fresh : Parsed
fresh = record {
  tabs = no_stops;
  files = [];
  flags = record { initial_only = false; entire_line = false; first_only = false };
}

abbrev pub holds_prefix : Bytes → Bytes → Bool
holds_prefix prefix a = elim (strip_prefix prefix a) [ some rest ↦ true | none ↦ false ]

-- `extra(a)`: the flags after it, and whether it has handled the argument. The status that it reports
-- is 0 in both commands.
unfoldable pub expand_extra : Flags → Bytes → Flags × Bool
expand_extra f a =
    if◌then◌else◌ {A = Flags × Bool} (bytes_eq a (codes "-i") || bytes_eq a (codes "--initial"))
      (record f { initial_only = true }, true) (f, false)

unfoldable pub unexpand_extra : Flags → Bytes → Flags × Bool
unfolding strip_prefix
unexpand_extra f a =
    if◌then◌else◌ {A = Flags × Bool} (bytes_eq a (codes "-a") || bytes_eq a (codes "--all"))
      (record f { entire_line = true }, true)
      (if◌then◌else◌ {A = Flags × Bool} (bytes_eq a (codes "--first-only"))
        (record f { first_only = true }, true)
        (if◌then◌else◌ {A = Flags × Bool}
          (bytes_eq a (codes "-t")
            || (bytes_eq a (codes "--tabs")
                || ((ltb 2 (length a) && holds_prefix (codes "-t") a)
                    || (ltb 7 (length a) && holds_prefix (codes "--tabs=") a))))
          (record f { entire_line = true }, false) (f, false)))

pub data Kind : Type 0 where
  rest_files wants_spec bad_option file_name : Kind
  gives_spec : Bytes → Kind

-- The cases behind those with a text in front.
unfoldable pub classify_rest : Bytes → Kind
classify_rest [] = file_name
classify_rest (c ∷ []) = file_name
classify_rest (c ∷ d ∷ s) =
    if not (c == b'-')
    then file_name
    else if (d == b't') && ltb 0 (length s)
    then gives_spec s
    else if leb b'0' d && leb d b'9'
    then gives_spec (d ∷ s)
    else bad_option

unfoldable pub classify : Bytes → Kind
unfolding strip_prefix classify_rest
classify a =
    if bytes_eq a (codes "--")
    then rest_files
    else if bytes_eq a (codes "-t") || bytes_eq a (codes "--tabs")
    then wants_spec
    else elim (strip_prefix (codes "--tabs=") a) [
      | some spec ↦ gives_spec spec
      | none ↦ classify_rest a
    ]

abbrev pub stops_result : Parsed → Result TabError TabStops → Result Message Parsed
stops_result p (ok tabs) = ok (record p { tabs = tabs })
stops_result p (err e) = err (bad_stops e)

unfoldable pub take_spec : Parsed → Bytes → Result Message Parsed
unfolding add_tab_spec
take_spec p spec = stops_result p (add_tab_spec p.tabs spec)

-- What one argument comes to: the end of the options, the next argument, or a need of one.
pub data Action : Type 0 where
  stop go_on wants : Parsed → Action

unfoldable pub act : Parsed → Bytes → Kind → Result Message Action
unfolding take_spec
act p a rest_files = ok (stop p)
act p a wants_spec = ok (wants p)
act p a (gives_spec spec) = take_spec p spec >>= λ p'. ok (go_on p')
act p a bad_option = err (invalid_option a)
act p a file_name = ok (go_on (record p { files = p.files ++ a ∷ [] }))

module _ (extra : Flags → Bytes → Flags × Bool) where
  unfoldable pub step : Parsed → Bytes → Result Message Action
  unfolding classify act
  step p a =
      let p' = record p { flags = (extra p.flags a).0 } in
      if (extra p.flags a).1 then ok (go_on p') else act p' a (classify a)

  unfoldable pub parse_tab_args : Parsed → List Bytes → Result Message Parsed
  unfolding step take_spec
  parse_tab_args p [] = ok p
  parse_tab_args p (a ∷ []) = step p a >>= λ action. elim action [
    | stop p' ↦ ok p'
    | go_on p' ↦ ok p'
    | wants p' ↦ err needs_argument
  ]
  parse_tab_args p (a ∷ b ∷ args) = step p a >>= λ action. elim action [
    | stop p' ↦ ok (record p' { files = p'.files ++ b ∷ args })
    | go_on p' ↦ parse_tab_args p' (b ∷ args)
    | wants p' ↦ take_spec p' b >>= λ p''. parse_tab_args p'' args
  ]
