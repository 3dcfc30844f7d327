-- ===== src/Tabs/Expand.antt =====
-- `expandState` of expand.go. Output to the buffered writer does not fail here.
use ba.Base.{
  ℕ, ◌+◌, ◌-◌, Bool, true, not, ◌||◌, [], ◌∷◌, ◌++◌, Bytes, ◌==◌, if◌then◌else◌, replicate,
}
use ba.Base.Lines.{newline}
use ba.Tabs.Stops.{TabStops, next}

pub record ExpandState : Type 0 where
  pub convert : Bool
  pub column : ℕ
  pub tab_index : ℕ

abbrev pub line_start : ExpandState
line_start = record { convert = true; column = 0; tab_index = 0 }

abbrev pub Emitted : Type 0
Emitted = Bytes × ExpandState

abbrev pub after_newline : ℕ → ExpandState → ExpandState
after_newline b s = if b == newline then line_start else s

-- A byte while blanks are converted; `s.convert` is already that of the next byte.
unfoldable pub convert_byte : TabStops → ℕ → ExpandState → Emitted
unfolding next
convert_byte t b s =
    let n = next t s.column s.tab_index in
    if◌then◌else◌ {A = Emitted} (b == 9)
      (
        replicate (n.stop - s.column) 32,
        record s { column = s.column + (n.stop - s.column); tab_index = n.index },
      )
      (if◌then◌else◌ {A = Emitted} (b == 8)
        (b ∷ [], record s { column = s.column - 1; tab_index = s.tab_index - 1 })
        (b ∷ [], after_newline b (record s { column = s.column + 1 })))

unfoldable pub expand_byte : TabStops → Bool → ExpandState → ℕ → Emitted
unfolding convert_byte
expand_byte t initial_only s b =
    let s' = record s { convert = not initial_only || ((b == 32) || (b == 9)) } in
    if◌then◌else◌ {A = Emitted} s.convert (convert_byte t b s') (b ∷ [], after_newline b s)

-- The loop of `run`.
unfoldable pub expand_bytes : TabStops → Bool → ExpandState → Bytes → Emitted
unfolding expand_byte
expand_bytes t initial_only s [] = ([], s)
expand_bytes t initial_only s (b ∷ bs) =
    let (out, s') = expand_byte t initial_only s b in
    let (more, s'') = expand_bytes t initial_only s' bs in (out ++ more, s'')
