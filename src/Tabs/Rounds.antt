-- ===== src/Tabs/Rounds.antt =====
-- A round of the loop of unexpand(1), with stops at equal distances.
use ba.Base.{
  ℕ, zero, suc, ◌+◌, ◌-◌, ◌<◌, ◌≡◌, inl, inr, Bool-cases, refl, sym, ap, ◌∙◌, Bool, true, false,
  ◌&&◌, ◌||◌, [], ◌∷◌, ◌++◌, append-nil, Bytes, arith, ltb, ◌==◌, ==→eq, if◌then◌else◌, if_true,
  length, replicate,
}
use mathlib.Core.Path.{subst}
use ba.Base.Lines.{newline}
use ba.Tabs.Stops.{TabStops}
use ba.Tabs.Unexpand.{
  UnexpandState, Emitted, line_start, pending_bytes, flush_pending, end_byte, unexpand_byte,
}
use ba.Tabs.Columns.{
  stop_after, stop_after_later, column_after, Expands, Expands-append, tab_byte-Expands,
  back_byte-Expands, plain_byte-Expands,
}
use ba.Tabs.Pending.{state, Held, passing, blanks, line_start-Held, pending_bytes-Held}

module _ (t : TabStops) (pos_ : 0 < t.size) where
  -- What a round writes, expand(1) turns into the blanks that were pending and what it makes of the
  -- byte, less the blanks that are pending now.
  abbrev pub Stepped : Emitted → ℕ → ℕ → ℕ → Type 0
  Stepped r b written seen =
      (written' seen' : ℕ) × (p e : Bytes) × Expands t pos_ written r.0 p written'
      × Expands t pos_ seen (b ∷ []) e seen'
      × Held t pos_ r.1 written' seen'
      × (p ++ replicate (seen' - written') 32 ≡ replicate (seen - written) 32 ++ e)

  -- Nothing is pending where both columns are the same.
  no_gap : (c : ℕ) (p : Bytes) → p ++ replicate (c - c) 32 ≡ p
  no_gap c p = let e : c - c ≡ 0 = omega arith in rw (e, append-nil p)

  pub empty-Held :
      (column next_tab : ℕ) (prev : Bool)
      → Held t pos_ (state t pos_ true column next_tab false prev []) column column
  empty-Held column next_tab prev =
      blanks 0 next_tab prev column column (omega arith) (stop_after_later t pos_ column) (inl refl)

  plain-Held :
      (entire_line : Bool) (column next_tab : ℕ)
      → Held t pos_
          (state t pos_ (true && (entire_line || false)) column next_tab false false [])
          column
          column
  plain-Held true column next_tab = empty-Held column next_tab false
  plain-Held false column next_tab = passing column next_tab false false column column refl

  -- The state behind a flush.
  pub flush_blanks :
      (column next_tab k : ℕ) (prev : Bool)
      → flush_pending (state t pos_ true column next_tab false prev (replicate k 32)) ≡ (
        pending_bytes (state t pos_ true column next_tab false prev (replicate k 32)),
        state t pos_ true column next_tab false prev [],
      )
  unfolding flush_pending pending_bytes
  flush_blanks column next_tab zero prev = refl
  flush_blanks column next_tab (suc k) prev =
      if_true (ltb 0 (length (replicate (suc k) 32))) _ _ _ (ground arith) refl

  pub flush_first :
      (column next_tab k : ℕ)
      → flush_pending (state t pos_ true column next_tab true true (replicate (suc k) 32)) ≡ (
        pending_bytes (state t pos_ true column next_tab true true (replicate (suc k) 32)),
        state t pos_ true column next_tab false true [],
      )
  unfolding flush_pending pending_bytes
  flush_first column next_tab k =
      if_true (ltb 0 (length (replicate (suc k) 32))) _ _ _ (ground arith) refl

  -- A byte that is no blank, behind the pending blanks.
  end_byte_plain :
      (entire_line : Bool) (b column next_tab : ℕ) (prev : Bool) (s : UnexpandState)
      (flushed : Bytes)
      → flush_pending s ≡ (flushed, state t pos_ true column next_tab false prev [])
      → end_byte entire_line b false true s ≡ (
        flushed ++ b ∷ [],
        if b == newline
            then line_start
            else state t pos_ (true && (entire_line || false)) column next_tab false false [],
      )
  unfolding end_byte
  end_byte_plain entire_line b column next_tab prev s flushed h = rw h refl

  new_line-Held :
      (entire_line : Bool) (b column next_tab : ℕ)
      → Held t pos_
          (if b == newline
            then line_start
            else state t pos_ (true && (entire_line || false)) (column + 1) next_tab false false [])
          (column_after t pos_ column b)
          (column_after t pos_ column b)
  new_line-Held entire_line b column next_tab = elim (Bool-cases (b == newline)) [
    | inl e ↦ rw e (line_start-Held t pos_)
    | inr e ↦ rw e (plain-Held entire_line (column + 1) next_tab)
  ]

  any_byte :
      (c b : ℕ)
      → (e : Bytes) × (c' : ℕ) × Expands t pos_ c (b ∷ []) e c' × ((b == newline) ≡ true → c' ≡ 0)
  any_byte c b = elim (Bool-cases (b == 9)) [
    | inl tab ↦
        let same : b ≡ 9 = ==→eq b 9 tab in
        (
          replicate (stop_after t pos_ c - c) 32,
          stop_after t pos_ c,
          rw same (tab_byte-Expands t pos_ c),
          λ n. absurd (omega (arith, ==→eq b newline n)),
        )
    | inr no_tab ↦ elim (Bool-cases (b == 8)) [
      | inl back ↦
          let same : b ≡ 8 = ==→eq b 8 back in
          (
            8 ∷ [],
            c - 1,
            rw same (back_byte-Expands t pos_ c),
            λ n. absurd (omega (arith, ==→eq b newline n)),
          )
      | inr no_back ↦ (
        b ∷ [],
        column_after t pos_ c b,
        plain_byte-Expands t pos_ c b no_tab no_back,
        λ n. rw n refl,
      )
    ]
  ]

  -- Nothing is converted up to the end of the line.
  pub passing-Stepped :
      (entire_line : Bool) (b column next_tab : ℕ) (one prev : Bool) (c : ℕ)
      → Stepped
          (unexpand_byte t entire_line (state t pos_ false column next_tab one prev []) b)
          b
          c
          c
  unfolding unexpand_byte
  passing-Stepped entire_line b column next_tab one prev c =
      let (e, c', x, ends) = any_byte c b in
      (
        c',
        c',
        e,
        e,
        x,
        x,
        elim (Bool-cases (b == newline)) [
          | inl n ↦ rw (n, ends n) (line_start-Held t pos_)
          | inr n ↦ rw n (passing column next_tab one prev c' c' refl)
        ],
        no_gap c' e ∙ ap (λ s. s ++ e) (sym (no_gap c [])),
      )

  -- A byte that is no blank and no backspace.
  pub other-Stepped :
      (entire_line : Bool) (b seen next_tab : ℕ) (prev : Bool) (written : ℕ) (s s' : UnexpandState)
      → Held t pos_ s written seen
      → flush_pending s' ≡ (pending_bytes s, state t pos_ true (seen + 1) next_tab false prev [])
      → (b == 9) ≡ false
      → (b == 8) ≡ false
      → Stepped (end_byte entire_line b false true s') b written seen
  other-Stepped entire_line b seen next_tab prev written s s' h f no_tab no_back =
      let c' = column_after t pos_ seen b in
      let shown = pending_bytes-Held t pos_ h in
      let x = plain_byte-Expands t pos_ seen b no_tab no_back in
      subst (λ r. Stepped r b written seen)
        (sym (end_byte_plain entire_line b (seen + 1) next_tab prev s' (pending_bytes s) f))
        (
          c',
          c',
          replicate (seen - written) 32 ++ b ∷ [],
          b ∷ [],
          Expands-append t pos_ written seen c' (pending_bytes s) (b ∷ []) _ _ shown x,
          x,
          new_line-Held entire_line b seen next_tab,
          no_gap c' _,
        )

  pub back-Stepped :
      (entire_line : Bool) (seen next_tab : ℕ) (prev : Bool) (written : ℕ) (s s' : UnexpandState)
      → Held t pos_ s written seen
      → flush_pending s' ≡ (pending_bytes s, state t pos_ true (seen - 1) next_tab false prev [])
      → Stepped (end_byte entire_line 8 false true s') 8 written seen
  back-Stepped entire_line seen next_tab prev written s s' h f =
      let shown = pending_bytes-Held t pos_ h in
      let x = back_byte-Expands t pos_ seen in
      subst (λ r. Stepped r 8 written seen)
        (sym (end_byte_plain entire_line 8 (seen - 1) next_tab prev s' (pending_bytes s) f))
        (
          seen - 1,
          seen - 1,
          replicate (seen - written) 32 ++ 8 ∷ [],
          8 ∷ [],
          Expands-append t pos_ written seen (seen - 1) (pending_bytes s) (8 ∷ []) _ _ shown x,
          x,
          plain-Held entire_line (seen - 1) next_tab,
          no_gap (seen - 1) _,
        )
