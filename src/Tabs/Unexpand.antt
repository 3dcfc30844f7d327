-- ===== src/Tabs/Unexpand.antt =====
-- `unexpandState` of unexpand.go.
use ba.Base.{
  ℕ, ◌+◌, ◌-◌, Bool, true, false, not, ◌&&◌, ◌||◌, [], ◌∷◌, ◌++◌, Bytes, ltb, ◌==◌, if◌then◌else◌,
  length, take,
}
use ba.Base.Lines.{newline}
use ba.Tabs.Stops.{TabStops, next}

pub record UnexpandState : Type 0 where
  pub convert : Bool
  pub column : ℕ
  pub tab_index : ℕ
  pub next_tab : ℕ
  pub one_blank_before : Bool
  pub prev_blank : Bool
  pub pending : Bytes

abbrev pub line_start : UnexpandState
line_start = record {
  convert = true;
  column = 0;
  tab_index = 0;
  next_tab = 0;
  one_blank_before = false;
  prev_blank = true;
  pending = [];
}

abbrev pub Emitted : Type 0
Emitted = Bytes × UnexpandState

-- A tab in the place of the first pending blank.
abbrev pub tab_first : Bytes → Bytes
tab_first [] = []
tab_first (b ∷ s) = 9 ∷ s

-- What `flushPending` writes.
unfoldable pub pending_bytes : UnexpandState → Bytes
pending_bytes s =
    if ltb 1 (length s.pending) && s.one_blank_before then tab_first s.pending else s.pending

unfoldable pub flush_pending : UnexpandState → Emitted
unfolding pending_bytes
flush_pending s =
    if◌then◌else◌ {A = Emitted} (ltb 0 (length s.pending))
      (pending_bytes s, record s { pending = []; one_blank_before = false }) ([], s)

-- The end of a round: the pending blanks, the byte itself if it is written, and a new line.
unfoldable pub end_byte : Bool → ℕ → Bool → Bool → UnexpandState → Emitted
unfolding flush_pending
end_byte entire_line b blank write_char s =
    let (flushed, s') = flush_pending s in
    let s'' = record s' { prev_blank = blank; convert = s'.convert && (entire_line || blank) } in
    (
      flushed ++ (if write_char then b ∷ [] else []),
      if b == newline then record line_start { pending = s''.pending } else s'',
    )

-- The pending blanks that stay behind a tab: one just before the previous stop.
abbrev pub keep_one : UnexpandState → UnexpandState
keep_one s = record s { pending = if s.one_blank_before then take 1 s.pending else [] }

-- A blank, where `s` has the next stop and whether it is still converted.
unfoldable pub blank_byte : Bool → ℕ → UnexpandState → Emitted
unfolding end_byte
blank_byte entire_line b s =
    let tabbed = keep_one (record s { column = s.next_tab; pending = tab_first s.pending }) in
    let column = s.column + 1 in
    let held = record s {
      column = column;
      one_blank_before = s.one_blank_before || (column == s.next_tab);
      pending = s.pending ++ b ∷ [];
      prev_blank = true;
    } in
    let replaced = keep_one (record s { column = column; pending = 9 ∷ [] }) in
    let (out, s') = end_byte entire_line b true false replaced in
    if◌then◌else◌ {A = Emitted} (not s.convert) (end_byte entire_line b true true s) (
      if◌then◌else◌ {A = Emitted} (b == 9) (end_byte entire_line b true true tabbed) (
        if◌then◌else◌ {A = Emitted} (not s.prev_blank || ltb column s.next_tab) ([], held)
          (9 ∷ out, s')))

unfoldable pub unexpand_byte : TabStops → Bool → UnexpandState → ℕ → Emitted
unfolding blank_byte next
unexpand_byte t entire_line s b =
    let n = next t s.column s.tab_index in
    let found = record s { next_tab = n.stop; tab_index = n.index; convert = not n.last } in
    let back = record s {
      column = s.column - 1;
      next_tab = s.column - 1;
      tab_index = s.tab_index - 1;
    } in
    let other = record s { column = s.column + 1 } in
    if◌then◌else◌ {A = Emitted} (not s.convert)
      (b ∷ [], if b == newline then record line_start { pending = s.pending } else s)
      (if◌then◌else◌ {A = Emitted} ((b == 32) || (b == 9)) (blank_byte entire_line b found) (
        if◌then◌else◌ {A = Emitted} (b == 8) (end_byte entire_line b false true back)
          (end_byte entire_line b false true other)))

-- The loop of `run`.
unfoldable pub unexpand_bytes : TabStops → Bool → UnexpandState → Bytes → Emitted
unfolding unexpand_byte
unexpand_bytes t entire_line s [] = ([], s)
unexpand_bytes t entire_line s (b ∷ bs) =
    let (out, s') = unexpand_byte t entire_line s b in
    let (more, s'') = unexpand_bytes t entire_line s' bs in (out ++ more, s'')
