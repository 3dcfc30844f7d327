-- ===== src/Tabs/Columns.antt =====
-- expand(1) with stops at equal distances: columns, and what it makes of the parts of a text.
use ba.Base.{
  ℕ, zero, suc, ◌+◌, ◌-◌, ◌%◌, ◌≤◌, ◌<◌, ◌≡◌, inl, inr, Bool-cases, refl, sym, ap, ◌∙◌, Bool, true,
  false, [], ◌∷◌, ◌++◌, append_assoc, append-nil, Bytes, arith, ltb, ◌==◌, if◌then◌else◌, if_false,
  replicate,
}
use native.Mathlib.Nat.{mod-lt, mod-add-mod, mod-eq_of_lt}
use ba.Base.Lines.{newline}
use ba.Tabs.Stops.{TabStops, next, to_multiple}
use ba.Tabs.Expand.{Emitted, after_newline, ExpandState, expand_byte, expand_bytes, convert_byte}

-- The next multiple is the same from every column before it.
to_multiple_same :
    (size c d : ℕ)
    → 0 < size
    → c ≤ d
    → d < to_multiple size c
    → to_multiple size d ≡ to_multiple size c
to_multiple_same size c d h le lt =
    let small : c % size < size = mod-lt c h in
    let apart : c % size + (d - c) < size = omega arith in
    let moved : c + (d - c) ≡ d = omega arith in
    let rest : d % size ≡ c % size + (d - c) =
      ap (λ k. k % size) (sym moved) ∙ (sym (mod-add-mod c size (d - c)) ∙ mod-eq_of_lt apart) in
    omega arith

to_multiple_later : (size c : ℕ) → 0 < size → c < to_multiple size c
to_multiple_later size c h = let small : c % size < size = mod-lt c h in omega arith

pub replicate-add {ℓ} :
    {A : Type ℓ} (m n : ℕ) (a : A) → replicate (m + n) a ≡ replicate m a ++ replicate n a
replicate-add zero n a = let e : 0 + n ≡ n = omega arith in rw e
replicate-add (suc m) n a =
    let e : suc m + n ≡ suc (m + n) = omega arith in rw (e, replicate-add m n a)

pub expand_bytes-append :
    (t : TabStops) (initial_only : Bool) (s s' s'' : ExpandState) (a b p q : Bytes)
    → expand_bytes t initial_only s a ≡ (p, s')
    → expand_bytes t initial_only s' b ≡ (q, s'')
    → expand_bytes t initial_only s (a ++ b) ≡ (p ++ q, s'')
unfolding expand_bytes
expand_bytes-append t initial_only s s' s'' [] b p q h k =
    let e : ◌≡◌ {A = Bytes} [] p = ap (λ r. r.0) h in
    let e' : s ≡ s' = ap (λ r. r.1) h in rw (e', k, ← e)
expand_bytes-append t initial_only s s' s'' (x ∷ a) b p q h k =
    let r = expand_byte t initial_only s x in
    let rest = expand_bytes t initial_only r.1 a in
    let e : r.0 ++ rest.0 ≡ p = ap (λ r. r.0) h in
    let e' : rest.1 ≡ s' = ap (λ r. r.1) h in
    let ih =
      expand_bytes-append t initial_only r.1 s' s'' a b rest.0 q (ap (λ z. (rest.0, z)) e') k in
    ap (λ (z : Emitted). (r.0 ++ z.0, z.1)) ih
    ∙ ap (λ z. (z, s'')) (sym (append_assoc r.0 rest.0 q) ∙ ap (λ z. z ++ q) e)

-- The tab stops stand at the multiples of `t.size`, and no blank is spared.
module _ (t : TabStops) (pos_ : 0 < t.size) where
  abbrev pub at : ℕ → ExpandState
  at column = record { convert = true; column = column; tab_index = 0 }

  abbrev pub stop_after : ℕ → ℕ
  stop_after column = to_multiple t.size column

  -- From one column to another, a text becomes another.
  abbrev pub Expands : ℕ → Bytes → Bytes → ℕ → Type 0
  Expands c s out d = expand_bytes t false (at c) s ≡ (out, at d)

  pub next_size :
      (column index : ℕ)
      → next t column index ≡ record { stop = stop_after column; last = false; index = index }
  unfolding next
  next_size column index = let some_ : ltb 0 t.size ≡ true = ground arith in rw some_ refl

  pub stop_after_same : (c d : ℕ) → c ≤ d → d < stop_after c → stop_after d ≡ stop_after c
  stop_after_same c d le lt = to_multiple_same t.size c d pos_ le lt

  pub stop_after_later : (c : ℕ) → c < stop_after c
  stop_after_later c = to_multiple_later t.size c pos_

  pub Expands-append :
      (c d e : ℕ) (a b p q : Bytes)
      → Expands c a p d
      → Expands d b q e
      → Expands c (a ++ b) (p ++ q) e
  Expands-append c d e a b p q h k = expand_bytes-append t false (at c) (at d) (at e) a b p q h k

  pub tab_byte-Expands :
      (c : ℕ) → Expands c (9 ∷ []) (replicate (stop_after c - c) 32) (stop_after c)
  unfolding expand_bytes expand_byte convert_byte
  tab_byte-Expands c =
      let later = stop_after_later c in
      let there : c + (stop_after c - c) ≡ stop_after c = omega arith in
      rw (next_size c 0, append-nil {A = ℕ} (replicate (stop_after c - c) 32), there)

  pub one_space-Expands : (c : ℕ) → Expands c (32 ∷ []) (32 ∷ []) (c + 1)
  unfolding expand_bytes expand_byte convert_byte
  one_space-Expands c = refl

  pub back_byte-Expands : (c : ℕ) → Expands c (8 ∷ []) (8 ∷ []) (c - 1)
  unfolding expand_bytes expand_byte convert_byte
  back_byte-Expands c = refl

  -- The column behind a byte that is no tab and no backspace.
  abbrev pub column_after : ℕ → ℕ → ℕ
  column_after c b = if b == newline then 0 else c + 1

  new_line : (c b : ℕ) → after_newline b (at (c + 1)) ≡ at (column_after c b)
  new_line c b = elim (Bool-cases (b == newline)) [ inl e ↦ rw e refl | inr e ↦ rw e refl ]

  converted :
      (c b : ℕ)
      → (b == 9) ≡ false
      → (b == 8) ≡ false
      → convert_byte t b (at c) ≡ (b ∷ [], after_newline b (at (c + 1)))
  unfolding convert_byte
  converted c b h k = if_false (b == 9) _ _ _ h (if_false (b == 8) _ _ _ k refl)

  pub plain_byte-Expands :
      (c b : ℕ)
      → (b == 9) ≡ false
      → (b == 8) ≡ false
      → Expands c (b ∷ []) (b ∷ []) (column_after c b)
  unfolding expand_bytes expand_byte
  plain_byte-Expands c b h k =
      ap (λ (z : Emitted). (z.0 ++ [], z.1)) (converted c b h k)
      ∙ ap (λ z. (b ∷ [], z)) (new_line c b)

  pub many_spaces-Expands : (c n : ℕ) → Expands c (replicate n 32) (replicate n 32) (c + n)
  unfolding expand_bytes
  many_spaces-Expands c zero = ap (λ d. ([], at d)) (omega arith)
  many_spaces-Expands c (suc n) =
      let there : c + 1 + n ≡ c + suc n = omega arith in
      ap (λ (z : Emitted). (32 ∷ z.0, z.1)) (many_spaces-Expands (c + 1) n)
      ∙ ap (λ d. (replicate (suc n) 32, at d)) there
