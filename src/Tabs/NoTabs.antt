-- ===== src/Tabs/NoTabs.antt =====
-- What expand(1) writes has no tab, wherever the stops are.
use ba.Base.{
  ℕ, zero, suc, ◌≡◌, inl, inr, Bool-cases, refl, ap₂, Bool, true, false, [], ◌∷◌, ◌++◌, Bytes, All,
  All-append, ◌==◌, replicate,
}
use ba.Base.Lines.{newline}
use ba.Tabs.Stops.{TabStops}
use ba.Tabs.Expand.{
  ExpandState, Emitted, after_newline, line_start, convert_byte, expand_byte, expand_bytes,
}

abbrev IsPlain : Bytes → Type 0
IsPlain s = All (λ b. (b == 9) ≡ false) s

replicate-IsPlain : (n : ℕ) → IsPlain (replicate n 32)
replicate-IsPlain zero = tt
replicate-IsPlain (suc n) = (refl, replicate-IsPlain n)

-- Bytes without a tab, and a state in which blanks are converted.
abbrev IsConverted : Emitted → Type 0
IsConverted r = IsPlain r.0 × (r.1.convert ≡ true)

after_newline_converts :
    (b : ℕ) (s : ExpandState) → s.convert ≡ true → (after_newline b s).convert ≡ true
after_newline_converts b s h = elim (Bool-cases (b == newline)) [
  | inl e ↦ rw e refl
  | inr e ↦ rw e h
]

convert_byte-IsConverted :
    (t : TabStops) (b : ℕ) (s : ExpandState) → s.convert ≡ true → IsConverted (convert_byte t b s)
unfolding convert_byte
convert_byte-IsConverted t b s h = elim (Bool-cases (b == 9)) [
  | inl tab ↦ rw tab (replicate-IsPlain _, h)
  | inr no_tab ↦ elim (Bool-cases (b == 8)) [
    | inl back ↦ rw (no_tab, back) ((no_tab, tt), h)
    | inr no_back ↦ rw (no_tab, no_back) ((no_tab, tt), after_newline_converts b _ h)
  ]
]

expand_byte-IsConverted :
    (t : TabStops) (s : ExpandState) (b : ℕ)
    → s.convert ≡ true
    → IsConverted (expand_byte t false s b)
unfolding expand_byte
expand_byte-IsConverted t s b h =
    rw h (convert_byte-IsConverted t b (record s { convert = true }) refl)

expand_bytes-IsPlain :
    (t : TabStops) (s : ExpandState) (bs : Bytes)
    → s.convert ≡ true
    → IsPlain (expand_bytes t false s bs).0
unfolding expand_bytes
expand_bytes-IsPlain t s [] h = tt
expand_bytes-IsPlain t s (b ∷ bs) h =
    let (plain, on) = expand_byte-IsConverted t s b h in
    All-append (λ b. (b == 9) ≡ false) (expand_byte t false s b).0 _ plain
      (expand_bytes-IsPlain t (expand_byte t false s b).1 bs on)

plain_byte :
    (t : TabStops) (only : Bool) (s : ExpandState) (b : ℕ)
    → (b == 9) ≡ false
    → (expand_byte t only s b).0 ≡ b ∷ []
unfolding expand_byte convert_byte
plain_byte t only s b h = elim (Bool-cases s.convert) [
  | inr off ↦ rw off refl
  | inl on ↦ elim (Bool-cases (b == 8)) [
    | inl back ↦ rw (on, h, back) refl
    | inr no_back ↦ rw (on, h, no_back) refl
  ]
]

plain_bytes :
    (t : TabStops) (only : Bool) (s : ExpandState) (bs : Bytes)
    → IsPlain bs
    → (expand_bytes t only s bs).0 ≡ bs
unfolding expand_bytes
plain_bytes t only s [] h = refl
plain_bytes t only s (b ∷ bs) (h, hs) =
    ap₂ (λ p q. p ++ q) (plain_byte t only s b h)
      (plain_bytes t only (expand_byte t only s b).1 bs hs)

-- What expand has written holds no tab, and expanding it again, with any stops, changes nothing.
pub expand_bytes_twice :
    (t t' : TabStops) (only : Bool) (s : ExpandState) (bs : Bytes)
    → (let out = (expand_bytes t false line_start bs).0 in
        All (λ b. (b == 9) ≡ false) out × ((expand_bytes t' only s out).0 ≡ out))
expand_bytes_twice t t' only s bs =
    let plain = expand_bytes-IsPlain t line_start bs refl in
    (plain, plain_bytes t' only s (expand_bytes t false line_start bs).0 plain)
