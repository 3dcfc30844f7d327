-- ===== src/Uniq/Emit.antt =====
-- The closure `emit` of `cmdUniq`: what one group of lines adds to the output.
use ba.Base.{
  ℕ, Bool, true, false, not, ◌&&◌, ◌||◌, [], ◌∷◌, ◌++◌, Bytes, leb, ltb, if◌then◌else◌, replicate,
  concat,
}
use ba.Base.Decimal.{decimal, pad_left}

-- The method of `--group` or `-D`; `absent` is the empty string.
pub data Method : Type 0 where
  absent plain prepend append separate both : Method

abbrev pub is_set : Method → Bool
is_set absent = false
is_set _ = true

abbrev pub is_before : Method → Bool → Bool
is_before prepend printed_any = true
is_before both printed_any = not printed_any
is_before _ printed_any = false

abbrev pub is_after : Method → Bool → Bool
is_after append more = true
is_after both more = true
is_after separate more = more
is_after _ more = false

pub record Mode : Type 0 where
  pub count : Bool
  pub only_dup : Bool
  pub only_uniq : Bool
  pub all_repeat : Method
  pub group_mode : Method
  pub term : ℕ

abbrev pub line_of : Mode → Bytes → Bytes
line_of m line = line ++ m.term ∷ []

-- Behind the early returns, for the count as `-D -u` leaves it.
unfoldable pub emit_group : Mode → Bool → Bytes → ℕ → Bool → Bytes
emit_group m printed_any line n more =
    let method = if is_set m.all_repeat then m.all_repeat else m.group_mode in
    let lines =
      if m.count
      then pad_left 7 (decimal n) ++ 32 ∷ line_of m line
      else if is_set m.all_repeat || is_set m.group_mode
      then concat (replicate n (line_of m line))
      else line_of m line in
    (if is_before method printed_any then m.term ∷ [] else [])
    ++ (lines ++ (if is_after method more then m.term ∷ [] else []))

-- Whether the group is printed.
abbrev pub prints : Mode → ℕ → Bool
prints m n =
    if is_set m.all_repeat && leb n 1
    then false
    else if is_set m.all_repeat || is_set m.group_mode
    then true
    else not (m.only_dup && leb n 1) && not (m.only_uniq && ltb 1 n)

-- The output, and whether a group has been printed so far.
unfoldable pub emit : Mode → Bool → Bytes → ℕ → Bool → Bytes × Bool
unfolding emit_group
emit m printed_any line n more =
    let n' = if is_set m.all_repeat && m.only_uniq then 1 else n in
    if prints m n then (emit_group m printed_any line n' more, true) else ([], printed_any)
