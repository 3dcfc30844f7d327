-- ===== src/Tabs/Pending.antt =====
-- unexpand(1) with stops at equal distances: the blanks that are pending, and a round of its loop.
use ba.Base.{
  ℕ, zero, suc, ◌+◌, ◌-◌, ◌≤◌, ◌<◌, ◌≡◌, ◌⊎◌, inl, refl, sym, ap, ap₂, ◌∙◌, Bool, true, false, ◌&&◌,
  [], ◌∷◌, Bytes, arith, ltb, if◌then◌else◌, if_true, length, replicate,
}
use mathlib.Core.Path.{subst}
use ba.Tabs.Stops.{TabStops}
use ba.Tabs.Unexpand.{UnexpandState, line_start, tab_first, pending_bytes}
use ba.Tabs.Columns.{
  at, replicate-add, stop_after, stop_after_later, Expands, Expands-append, tab_byte-Expands,
  many_spaces-Expands,
}

module _ (t : TabStops) (pos_ : 0 < t.size) where
  abbrev pub state : Bool → ℕ → ℕ → Bool → Bool → Bytes → UnexpandState
  state convert column next_tab one prev pending = record {
    convert = convert;
    column = column;
    tab_index = 0;
    next_tab = next_tab;
    one_blank_before = one;
    prev_blank = prev;
    pending = pending;
  }

  -- What was written takes expand(1) to the column `written`, and what was read to the column `seen`:
  -- the blanks between are pending. Either none of them reaches a stop, or only the first one does.
  pub data Held : UnexpandState → ℕ → ℕ → Type 0 where
    passing :
        (column next_tab : ℕ) (one prev : Bool) (written seen : ℕ)
        → written ≡ seen
        → Held (state false column next_tab one prev []) written seen
    blanks :
        (k next_tab : ℕ) (prev : Bool) (written seen : ℕ)
        → written + k ≡ seen
        → seen < stop_after t pos_ written
        → (k ≡ 0) ⊎ (prev ≡ true)
        → Held (state true seen next_tab false prev (replicate k 32)) written seen
    first_at_stop :
        (k next_tab written seen : ℕ)
        → written + suc k ≡ seen
        → stop_after t pos_ written ≡ written + 1
        → seen < stop_after t pos_ (written + 1)
        → Held (state true seen next_tab true true (replicate (suc k) 32)) written seen

  pub Held-le : {s : UnexpandState} {written seen : ℕ} → Held s written seen → written ≤ seen
  Held-le (passing column next_tab one prev written seen e) = omega arith
  Held-le (blanks k next_tab prev written seen e lt h) = omega arith
  Held-le (first_at_stop k next_tab written seen e stop lt) = omega arith

  pub line_start-Held : Held line_start 0 0
  line_start-Held = blanks 0 0 true 0 0 refl (stop_after_later t pos_ 0) (inl refl)

  gap :
      (written k seen : ℕ)
      → written + k ≡ seen
      → Expands t pos_ written (replicate k 32) (replicate (seen - written) 32) seen
  gap written k seen e =
      let n : k ≡ seen - written = omega arith in
      many_spaces-Expands t pos_ written k ∙ ap₂ (λ m d. (replicate m 32, at t pos_ d)) n e

  -- A tab and blanks behind it.
  tab_gap :
      (written k seen : ℕ)
      → stop_after t pos_ written + k ≡ seen
      → Expands t pos_ written (9 ∷ replicate k 32) (replicate (seen - written) 32) seen
  tab_gap written k seen e =
      let later = stop_after_later t pos_ written in
      let stop = stop_after t pos_ written in
      let n : stop - written + k ≡ seen - written = omega arith in
      Expands-append t pos_ written stop (stop + k) (9 ∷ []) (replicate k 32) _ _
        (tab_byte-Expands t pos_ written) (many_spaces-Expands t pos_ stop k)
      ∙ ap₂ (λ m d. (m, at t pos_ d))
          (sym (replicate-add (stop - written) k 32) ∙ ap (λ m. replicate m 32) n) e

  unmarked : (b : Bool) (x y : Bytes) → (if b && false then x else y) ≡ y
  unmarked true x y = refl
  unmarked false x y = refl

  two_pending : (n : ℕ) → ltb 1 (suc (suc n)) ≡ true
  two_pending n = ground arith

  -- What a flush of the pending blanks writes, expand(1) turns into blanks.
  pub pending_bytes-Held :
      {s : UnexpandState} {written seen : ℕ}
      → Held s written seen
      → Expands t pos_ written (pending_bytes s) (replicate (seen - written) 32) seen
  unfolding pending_bytes
  pending_bytes-Held (passing column next_tab one prev written seen e) =
      gap written 0 seen (omega arith)
  pending_bytes-Held (blanks k next_tab prev written seen e lt h) =
      subst (λ p. Expands t pos_ written p (replicate (seen - written) 32) seen)
        (sym (
          unmarked (ltb 1 (length (replicate k 32))) (tab_first (replicate k 32)) (replicate k 32)))
        (gap written k seen e)
  pending_bytes-Held (first_at_stop zero next_tab written seen e stop lt) = gap written 1 seen e
  pending_bytes-Held (first_at_stop (suc k) next_tab written seen e stop lt) =
      subst (λ p. Expands t pos_ written p (replicate (seen - written) 32) seen)
        (sym (
          if_true (ltb 1 (length (replicate (suc (suc k)) 32)) && true) (9 ∷ replicate (suc k) 32) _
            (9 ∷ replicate (suc k) 32) (rw (two_pending (length {A = ℕ} (replicate k 32))) refl)
            refl))
        (tab_gap written (suc k) seen (omega arith))
