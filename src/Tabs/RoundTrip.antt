-- ===== src/Tabs/RoundTrip.antt =====
-- expand(1) takes back what unexpand(1) does, with stops at equal distances.
use ba.Base.{
  ℕ, suc, ◌+◌, ◌-◌, ◌<◌, ◌≡◌, inl, inr, Bool-cases, refl, sym, ap, ◌∙◌, Bool, true, false, [], ◌∷◌,
  ◌++◌, append_assoc, append-nil, Bytes, ◌==◌, ==→eq, replicate,
}
use mathlib.Core.Path.{subst}
use ba.Tabs.Stops.{TabStops}
use ba.Tabs.Expand
use ba.Tabs.Expand.{ExpandState, expand_bytes}
use ba.Tabs.Unexpand
use ba.Tabs.Unexpand.{
  UnexpandState, pending_bytes, flush_pending, end_byte, blank_byte, unexpand_byte, unexpand_bytes,
}
use ba.Tabs.Columns.{at, next_size, Expands, Expands-append}
use ba.Tabs.Pending.{
  state, Held, passing, blanks, first_at_stop, line_start-Held, pending_bytes-Held,
}
use ba.Tabs.Rounds.{
  Stepped, passing-Stepped, other-Stepped, back-Stepped, flush_blanks, flush_first,
}
use ba.Tabs.BlankRounds.{tab_blanks, tab_first_at_stop, space_blanks, space_first_at_stop}

module _ (t : TabStops) (pos_ : 0 < t.size) (entire_line : Bool) where
  byte-Stepped :
      {s : UnexpandState} {written seen : ℕ} (b : ℕ)
      → Held t pos_ s written seen
      → Stepped t pos_ (unexpand_byte t entire_line s b) b written seen
  unfolding unexpand_byte
  byte-Stepped b (passing column next_tab one prev written seen e) =
      subst
        (λ c.
          Stepped t pos_
            (unexpand_byte t entire_line (state t pos_ false column next_tab one prev []) b) b
            written c)
        e (passing-Stepped t pos_ entire_line b column next_tab one prev written)
  byte-Stepped b (blanks k next_tab prev written seen e lt h) = elim (Bool-cases (b == 9)) [
    | inl tab ↦
        rw (==→eq b 9 tab, next_size t pos_ seen 0)
          (tab_blanks t pos_ entire_line k written seen prev e lt)
    | inr no_tab ↦ elim (Bool-cases (b == 32)) [
      | inl space ↦
          rw (==→eq b 32 space, next_size t pos_ seen 0)
            (space_blanks t pos_ entire_line k written seen prev e lt h)
      | inr no_space ↦ elim (Bool-cases (b == 8)) [
        | inl back ↦ rw (==→eq b 8 back) (
            back-Stepped t pos_ entire_line seen (seen - 1) prev written _
              (state t pos_ true (seen - 1) (seen - 1) false prev (replicate k 32))
              (blanks k next_tab prev written seen e lt h)
              (flush_blanks t pos_ (seen - 1) (seen - 1) k prev))
        | inr no_back ↦
            rw (no_space, no_tab, no_back)
              (other-Stepped t pos_ entire_line b seen next_tab prev written _
                (state t pos_ true (seen + 1) next_tab false prev (replicate k 32))
                (blanks k next_tab prev written seen e lt h)
                (flush_blanks t pos_ (seen + 1) next_tab k prev) no_tab no_back)
      ]
    ]
  ]
  byte-Stepped b (first_at_stop k next_tab written seen e stop lt) = elim (Bool-cases (b == 9)) [
    | inl tab ↦
        rw (==→eq b 9 tab, next_size t pos_ seen 0)
          (tab_first_at_stop t pos_ entire_line k written seen e stop lt)
    | inr no_tab ↦ elim (Bool-cases (b == 32)) [
      | inl space ↦
          rw (==→eq b 32 space, next_size t pos_ seen 0)
            (space_first_at_stop t pos_ entire_line k written seen e stop lt)
      | inr no_space ↦ elim (Bool-cases (b == 8)) [
        | inl back ↦ rw (==→eq b 8 back) (
            back-Stepped t pos_ entire_line seen (seen - 1) true written _
              (state t pos_ true (seen - 1) (seen - 1) true true (replicate (suc k) 32))
              (first_at_stop k next_tab written seen e stop lt)
              (flush_first t pos_ (seen - 1) (seen - 1) k))
        | inr no_back ↦
            rw (no_space, no_tab, no_back)
              (other-Stepped t pos_ entire_line b seen next_tab true written _
                (state t pos_ true (seen + 1) next_tab true true (replicate (suc k) 32))
                (first_at_stop k next_tab written seen e stop lt)
                (flush_first t pos_ (seen + 1) next_tab k) no_tab no_back)
      ]
    ]
  ]

  -- A run of the loop.
  abbrev Ran : Unexpand.Emitted → Bytes → ℕ → ℕ → Type 0
  Ran r bs written seen =
      (written' seen' : ℕ) × (p e : Bytes) × Expands t pos_ written r.0 p written'
      × Expands t pos_ seen bs e seen'
      × Held t pos_ r.1 written' seen'
      × (p ++ replicate (seen' - written') 32 ≡ replicate (seen - written) 32 ++ e)

  regroup :
      (p p' g g' g'' e e' : Bytes)
      → p ++ g' ≡ g ++ e
      → p' ++ g'' ≡ g' ++ e'
      → (p ++ p') ++ g'' ≡ g ++ (e ++ e')
  regroup p p' g g' g'' e e' h k =
      append_assoc p p' g''
      ∙ (ap (λ s. p ++ s) k
          ∙ (sym (append_assoc p g' e') ∙ (ap (λ s. s ++ e') h ∙ append_assoc g e e')))

  bytes-Ran :
      (s : UnexpandState) (bs : Bytes) (written seen : ℕ)
      → Held t pos_ s written seen
      → Ran (unexpand_bytes t entire_line s bs) bs written seen
  unfolding unexpand_bytes expand_bytes
  bytes-Ran s [] written seen h =
      (written, seen, [], [], refl, refl, h, sym (append-nil (replicate (seen - written) 32)))
  bytes-Ran s (b ∷ bs) written seen h =
      let r = unexpand_byte t entire_line s b in
      let (w1, s1, p1, e1, x1, y1, h1, g1) = byte-Stepped b h in
      let (w2, s2, p2, e2, x2, y2, h2, g2) = bytes-Ran r.1 bs w1 s1 h1 in
      (
        w2,
        s2,
        p1 ++ p2,
        e1 ++ e2,
        Expands-append t pos_ written w1 w2 r.0 (unexpand_bytes t entire_line r.1 bs).0 p1 p2 x1 x2,
        Expands-append t pos_ seen s1 s2 (b ∷ []) bs e1 e2 y1 y2,
        h2,
        regroup p1 p2 (replicate (seen - written) 32) (replicate (s1 - w1) 32)
            (replicate (s2 - w2) 32) e1 e2 g1 g2,
      )

  flushed :
      {s : UnexpandState} {written seen : ℕ}
      → Held t pos_ s written seen
      → (flush_pending s).0 ≡ pending_bytes s
  unfolding flush_pending pending_bytes
  flushed (passing column next_tab one prev written seen e) = refl
  flushed (blanks k next_tab prev written seen e lt h) =
      ap (λ r. r.0) (flush_blanks t pos_ seen next_tab k prev)
  flushed (first_at_stop k next_tab written seen e stop lt) =
      ap (λ r. r.0) (flush_first t pos_ seen next_tab k)

-- With tab stops at equal distances: expanding what unexpand writes, the last flush included, gives
-- what expanding its input gives, whether all blanks or those in front of the lines are converted.
pub expand_bytes-unexpand_bytes :
    (t : TabStops) (entire_line : Bool) (bs : Bytes)
    → 0 < t.size
    → (let r = unexpand_bytes t entire_line Unexpand.line_start bs in
        expand_bytes t false Expand.line_start (r.0 ++ (flush_pending r.1).0)
        ≡ expand_bytes t false Expand.line_start bs)
expand_bytes-unexpand_bytes t entire_line bs pos_ =
    let r = unexpand_bytes t entire_line Unexpand.line_start bs in
    let (w, s, p, e, x, y, h, g) =
      bytes-Ran t pos_ entire_line Unexpand.line_start bs 0 0 (line_start-Held t pos_) in
    let rest =
      Expands-append t pos_ 0 w s r.0 (pending_bytes r.1) p (replicate (s - w) 32) x
        (pending_bytes-Held t pos_ h) in
    ap (λ q. expand_bytes t false Expand.line_start (r.0 ++ q)) (flushed t pos_ entire_line h)
    ∙ (rest ∙ (ap (λ q. (q, at t pos_ s)) g ∙ sym y))
