-- ===== src/Tabs/BlankRounds.antt =====
-- A round of the loop of unexpand(1) for a blank, with stops at equal distances.
use ba.Base.{
  ℕ, zero, suc, ◌+◌, ◌-◌, ◌≤◌, ◌<◌, ◌≡◌, ◌⊎◌, inl, inr, Bool-cases, refl, sym, ap, ap₂, ◌∙◌, Bool,
  true, false, not, ◌&&◌, ◌||◌, [], ◌∷◌, ◌++◌, append-nil, Bytes, arith, ltb, ◌==◌, replicate,
}
use mathlib.Core.Path.{subst}
use ba.Tabs.Stops.{TabStops}
use ba.Tabs.Expand.{expand_bytes}
use ba.Tabs.Unexpand.{UnexpandState, pending_bytes, flush_pending, end_byte, blank_byte}
use ba.Tabs.Columns.{
  at, replicate-add, stop_after, stop_after_same, stop_after_later, Expands, Expands-append,
  tab_byte-Expands, one_space-Expands,
}
use ba.Tabs.Pending.{state, Held, blanks, first_at_stop}
use ba.Tabs.Rounds.{Stepped, empty-Held}

module _ (t : TabStops) (pos_ : 0 < t.size) where
  abbrev stop_of : ℕ → ℕ
  stop_of c = stop_after t pos_ c

  -- The state behind tabs.
  abbrev tabbed : Bool → ℕ → ℕ → UnexpandState
  tabbed entire_line column next_tab =
      state t pos_ (true && (entire_line || true)) column next_tab false true []

  tabbed-Held :
      (entire_line : Bool) (column next_tab : ℕ)
      → Held t pos_ (tabbed entire_line column next_tab) column column
  tabbed-Held true column next_tab = empty-Held t pos_ column next_tab true
  tabbed-Held false column next_tab = empty-Held t pos_ column next_tab true

  tabs-Stepped :
      (entire_line : Bool) (out : Bytes) (b written seen stop next_tab : ℕ)
      → written ≤ seen
      → seen ≤ stop
      → Expands t pos_ written out (replicate (stop - written) 32) stop
      → Expands t pos_ seen (b ∷ []) (replicate (stop - seen) 32) stop
      → Stepped t pos_ (out, tabbed entire_line stop next_tab) b written seen
  tabs-Stepped entire_line out b written seen stop next_tab le le' x y =
      let none_ : stop - stop ≡ 0 = omega arith in
      let parts : stop - written ≡ seen - written + (stop - seen) = omega arith in
      (
        stop,
        stop,
        replicate (stop - written) 32,
        replicate (stop - seen) 32,
        x,
        y,
        tabbed-Held entire_line stop next_tab,
        ap (λ k. replicate (stop - written) 32 ++ replicate k 32) none_
            ∙ (append-nil (replicate (stop - written) 32)
                ∙ (ap (λ k. replicate k 32) parts
                    ∙ replicate-add (seen - written) (stop - seen) 32)),
      )

  -- One tab for the pending blanks, or two.
  one_tab :
      (k written seen : ℕ)
      → written + k ≡ seen
      → seen < stop_of written
      → Expands t pos_ written (9 ∷ []) (replicate (stop_of seen - written) 32) (stop_of seen)
  one_tab k written seen e lt =
      let same = stop_after_same t pos_ written seen (omega arith) lt in
      tab_byte-Expands t pos_ written
      ∙ ap (λ d. (replicate (d - written) 32, at t pos_ d)) (sym same)

  two_tabs :
      (k written seen : ℕ)
      → written + suc k ≡ seen
      → stop_of written ≡ written + 1
      → seen < stop_of (written + 1)
      → Expands t pos_ written (9 ∷ 9 ∷ []) (replicate (stop_of seen - written) 32) (stop_of seen)
  two_tabs k written seen e stop lt =
      let same = stop_after_same t pos_ (written + 1) seen (omega arith) lt in
      let first : Expands t pos_ written (9 ∷ []) (replicate (written + 1 - written) 32)
          (written + 1) =
        tab_byte-Expands t pos_ written
        ∙ ap (λ d. (replicate (d - written) 32, at t pos_ d)) stop in
      let later = stop_after_later t pos_ (written + 1) in
      let parts : written + 1 - written + (stop_of (written + 1) - (written + 1))
          ≡ stop_of (written + 1) - written =
        omega arith in
      Expands-append t pos_ written (written + 1) (stop_of (written + 1)) (9 ∷ []) (9 ∷ []) _ _
        first (tab_byte-Expands t pos_ (written + 1))
      ∙ (ap (λ p. (p, at t pos_ (stop_of (written + 1))))
            (sym (replicate-add (written + 1 - written) (stop_of (written + 1) - (written + 1)) 32)
              ∙ ap (λ m. replicate m 32) parts)
          ∙ ap (λ d. (replicate (d - written) 32, at t pos_ d)) (sym same))

  -- A tab.
  pub tab_blanks :
      (entire_line : Bool) (k written seen : ℕ) (prev : Bool)
      → written + k ≡ seen
      → seen < stop_of written
      → Stepped t pos_
          (blank_byte entire_line 9
            (state t pos_ true seen (stop_of seen) false prev (replicate k 32)))
          9
          written
          seen
  unfolding blank_byte end_byte flush_pending pending_bytes
  tab_blanks entire_line k written seen prev e lt =
      let later = stop_after_later t pos_ seen in
      tabs-Stepped entire_line (9 ∷ []) 9 written seen (stop_of seen) (stop_of seen) (omega arith)
        (omega arith) (one_tab k written seen e lt) (tab_byte-Expands t pos_ seen)

  pub tab_first_at_stop :
      (entire_line : Bool) (k written seen : ℕ)
      → written + suc k ≡ seen
      → stop_of written ≡ written + 1
      → seen < stop_of (written + 1)
      → Stepped t pos_
          (blank_byte entire_line 9
            (state t pos_ true seen (stop_of seen) true true (replicate (suc k) 32)))
          9
          written
          seen
  unfolding blank_byte end_byte flush_pending pending_bytes
  tab_first_at_stop entire_line k written seen e stop lt =
      let later = stop_after_later t pos_ seen in
      tabs-Stepped entire_line (9 ∷ 9 ∷ []) 9 written seen (stop_of seen) (stop_of seen)
        (omega arith) (omega arith) (two_tabs k written seen e stop lt)
        (tab_byte-Expands t pos_ seen)

  snoc_blank : (k : ℕ) → ◌≡◌ {A = Bytes} (replicate k 32 ++ 32 ∷ []) (replicate (suc k) 32)
  snoc_blank zero = refl
  snoc_blank (suc k) = ap (λ s. 32 ∷ s) (snoc_blank k)

  -- A blank that joins the pending ones.
  joining-Stepped :
      (s : UnexpandState) (written seen : ℕ)
      → written ≤ seen
      → Held t pos_ s written (seen + 1)
      → Stepped t pos_ ([], s) 32 written seen
  unfolding expand_bytes
  joining-Stepped s written seen le h =
      let more : seen + 1 - written ≡ seen - written + 1 = omega arith in
      (
        written,
        seen + 1,
        [],
        32 ∷ [],
        refl,
        one_space-Expands t pos_ seen,
        h,
        ap (λ k. replicate k 32) more ∙ replicate-add (seen - written) 1 32,
      )

  last_blank :
      (seen : ℕ)
      → stop_of seen ≡ seen + 1
      → Expands t pos_ seen (32 ∷ []) (replicate (stop_of seen - seen) 32) (stop_of seen)
  last_blank seen e =
      let one : 1 ≡ stop_of seen - seen = omega arith in
      one_space-Expands t pos_ seen ∙ ap₂ (λ k d. (replicate k 32, at t pos_ d)) one (sym e)

  -- A space behind blanks that do not reach a stop.
  pub space_blanks :
      (entire_line : Bool) (k written seen : ℕ) (prev : Bool)
      → written + k ≡ seen
      → seen < stop_of written
      → (k ≡ 0) ⊎ (prev ≡ true)
      → Stepped t pos_
          (blank_byte entire_line 32
            (state t pos_ true seen (stop_of seen) false prev (replicate k 32)))
          32
          written
          seen
  unfolding blank_byte end_byte flush_pending pending_bytes
  space_blanks entire_line k written seen prev e lt j =
      let later = stop_after_later t pos_ seen in
      let same = stop_after_same t pos_ written seen (omega arith) lt in
      let there : seen + 1 ≡ stop_of seen
          → Stepped t pos_ (9 ∷ [], tabbed entire_line (seen + 1) (stop_of seen)) 32 written seen =
        λ h.
          subst (λ c. Stepped t pos_ (9 ∷ [], tabbed entire_line c (stop_of seen)) 32 written seen)
            (sym h)
            (tabs-Stepped entire_line (9 ∷ []) 32 written seen (stop_of seen) (stop_of seen)
              (omega arith) (omega arith) (one_tab k written seen e lt)
              (last_blank seen (sym h))) in
      elim (Bool-cases (not prev || ltb (seen + 1) (stop_of seen))) [
        | inr goes ↦ rw goes (there (ground arith))
        | inl stays ↦ rw stays (
            joining-Stepped _ written seen (omega arith)
              (elim (Bool-cases (seen + 1 == stop_of seen)) [
                | inl hit ↦
                    let none_ : k ≡ 0 = ground arith in
                    rw (hit, none_)
                      (first_at_stop 0 (stop_of seen) written (seen + 1) (omega arith)
                        (ground arith) (omega (arith, stop_after_later t pos_ (written + 1))))
                | inr miss ↦
                    rw (miss, snoc_blank k)
                      (blanks (suc k) (stop_of seen) true written (seen + 1) (omega arith)
                        (ground arith) (inr refl))
              ]))
      ]

  -- A space behind blanks of which the first has reached a stop.
  pub space_first_at_stop :
      (entire_line : Bool) (k written seen : ℕ)
      → written + suc k ≡ seen
      → stop_of written ≡ written + 1
      → seen < stop_of (written + 1)
      → Stepped t pos_
          (blank_byte entire_line 32
            (state t pos_ true seen (stop_of seen) true true (replicate (suc k) 32)))
          32
          written
          seen
  unfolding blank_byte end_byte flush_pending pending_bytes
  space_first_at_stop entire_line k written seen e stop lt =
      let later = stop_after_later t pos_ seen in
      let same = stop_after_same t pos_ (written + 1) seen (omega arith) lt in
      let there : seen + 1 ≡ stop_of seen
          → Stepped t pos_ (9 ∷ 9 ∷ [], tabbed entire_line (seen + 1) (stop_of seen)) 32 written
              seen =
        λ h.
          subst
            (λ c. Stepped t pos_ (9 ∷ 9 ∷ [], tabbed entire_line c (stop_of seen)) 32 written seen)
            (sym h)
            (tabs-Stepped entire_line (9 ∷ 9 ∷ []) 32 written seen (stop_of seen) (stop_of seen)
              (omega arith) (omega arith) (two_tabs k written seen e stop lt)
              (last_blank seen (sym h))) in
      elim (Bool-cases (ltb (seen + 1) (stop_of seen))) [
        | inr goes ↦ rw goes (there (ground arith))
        | inl stays ↦
            rw (stays, snoc_blank (suc k))
              (joining-Stepped _ written seen (omega arith) (
                first_at_stop (suc k) (stop_of seen) written (seen + 1) (omega arith) stop
                  (ground arith)))
      ]
