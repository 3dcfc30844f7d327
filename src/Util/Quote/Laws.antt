-- ===== src/Util/Quote/Laws.antt =====
-- What `shellQuoteName` and `quoteForceName` write is one word of the shell, which stands for the name.
use ba.Base.{
  ℕ, ◌≡◌, refl, ap, Bool, true, false, ◌&&◌, [], ◌∷◌, ◌++◌, some, Bytes, arith, ◌==◌, Bool-cases,
  inl, inr,
}
use ba.Util.Quote.{
  Place, outside, quoted, pending, group, quote_loop, before_quote, before_control, before_other,
  is_control, octal_escape, ansi_c_escape, is_safe_byte, is_safe_name, is_alnum_byte,
  is_double_byte, is_double_quotable, has_single_quote, shell_quote_name,
}
use ba.Util.Quote.Shell.{Reading, bare, single, double, ansi, step, read_word, prefix}

read_word-ansi_c_escape :
    (c : ℕ) (t : Bytes)
    → is_control c ≡ true
    → read_word ansi (ansi_c_escape c ++ t) ≡ prefix (c ∷ []) (read_word ansi t)
unfolding is_control read_word ansi_c_escape octal_escape step
read_word-ansi_c_escape c t h = ground arith

safe-step : (c : ℕ) → is_safe_byte c ≡ true → step bare c ≡ (bare, c ∷ [])
unfolding is_safe_byte is_alnum_byte step
safe-step c h = ground arith

double-step : (c : ℕ) → is_double_byte c ≡ true → step double c ≡ (double, c ∷ [])
unfolding is_double_byte is_alnum_byte step
double-step c h = ground arith

-- How the shell reads at a place of the loop.
abbrev pub reading_at : Place → Reading
reading_at outside = bare
reading_at quoted = single
reading_at pending = bare
reading_at group = ansi

pub other-step : (c : ℕ) → (c == 39) ≡ false → step single c ≡ (single, c ∷ [])
unfolding step
other-step c h = rw h

read_word-quote :
    (place : Place) (t : Bytes)
    → read_word (reading_at place) (before_quote place ++ 92 ∷ 39 ∷ t)
      ≡ prefix (39 ∷ []) (read_word bare t)
unfolding read_word step
read_word-quote outside t = refl
read_word-quote quoted t = refl
read_word-quote pending t = refl
read_word-quote group t = refl

read_word-control :
    (place : Place) (t : Bytes)
    → read_word (reading_at place) (before_control place ++ t) ≡ read_word ansi t
unfolding read_word step
read_word-control outside t = refl
read_word-control quoted t = refl
read_word-control pending t = refl
read_word-control group t = refl

read_word-other :
    (place : Place) (t : Bytes)
    → read_word (reading_at place) (before_other place ++ t) ≡ read_word single t
unfolding read_word step
read_word-other outside t = refl
read_word-other quoted t = refl
read_word-other pending t = refl
read_word-other group t = refl

-- A byte that is read for itself.
pub read_word-step :
    (r r' : Reading) (c : ℕ) (s : Bytes)
    → step r c ≡ (r', c ∷ [])
    → read_word r (c ∷ s) ≡ prefix (c ∷ []) (read_word r' s)
unfolding read_word
read_word-step r r' c s e = ap (λ (p : Reading × Bytes). prefix p.1 (read_word p.0 s)) e

pub both : (a b : Bool) → (a && b) ≡ true → (a ≡ true) × (b ≡ true)
both a b h = ground arith

same_byte : (a b : ℕ) (s : Bytes) → (a == b) ≡ true → prefix (b ∷ []) (some s) ≡ some (a ∷ s)
same_byte a b s e = ground arith

-- From every place the rest of the loop's output reads as the rest of the name.
read_word-quote_loop :
    (place : Place) (s : Bytes) → read_word (reading_at place) (quote_loop place s) ≡ some s
unfolding quote_loop
read_word-quote_loop outside [] = unfold read_word in refl
read_word-quote_loop quoted [] = unfold read_word in refl
read_word-quote_loop pending [] = unfold read_word in refl
read_word-quote_loop group [] = unfold read_word in refl
read_word-quote_loop place (b ∷ s) =
    let quote = read_word-quote_loop pending s in
    let control = read_word-quote_loop group s in
    let other = read_word-quote_loop quoted s in
    let here = read_word-quote place (quote_loop pending s) in
    elim (Bool-cases (b == 39)) [
      | inl e ↦ rw (e, here, quote) (same_byte b 39 s e)
      | inr e ↦ elim (Bool-cases (is_control b)) [
        | inl k ↦ rw (
          e,
          k,
          read_word-control place (ansi_c_escape b ++ quote_loop group s),
          read_word-ansi_c_escape b (quote_loop group s) k,
          control,
        )
        | inr k ↦ rw (
          e,
          k,
          read_word-other place (b ∷ quote_loop quoted s),
          read_word-step single single b (quote_loop quoted s) (other-step b e),
          other,
        )
      ]
    ]

read_word-safe : (s : Bytes) → is_safe_name s ≡ true → read_word bare s ≡ some s
unfolding is_safe_name
read_word-safe [] h = unfold read_word in refl
read_word-safe (b ∷ s) h =
    let (hb, hs) = both (is_safe_byte b) (is_safe_name s) h in
    let ih = read_word-safe s hs in rw (read_word-step bare bare b s (safe-step b hb), ih)

read_word-double :
    (s : Bytes) → is_double_quotable s ≡ true → read_word double (s ++ 34 ∷ []) ≡ some s
unfolding is_double_quotable
read_word-double [] h = unfold read_word step in refl
read_word-double (b ∷ s) h =
    let (hb, hs) = both (is_double_byte b) (is_double_quotable s) h in
    let ih = read_word-double s hs in
    rw (read_word-step double double b (s ++ 34 ∷ []) (double-step b hb), ih)

-- The text that `shellQuoteName` writes for a name reads as one word of the shell, the name. Bare
-- bytes such as `~` and `#` are read for themselves.
pub read_word-shell_quote_name : (name : Bytes) → read_word bare (shell_quote_name name) ≡ some name
unfolding shell_quote_name
read_word-shell_quote_name [] = unfold read_word step in refl
read_word-shell_quote_name (b ∷ s) =
    let name = b ∷ s in
    elim (Bool-cases (is_safe_name name)) [
      | inl e ↦ rw e (read_word-safe name e)
      | inr e ↦ elim (Bool-cases (has_single_quote name && is_double_quotable name)) [
        | inl k ↦
            let (q, d) = both (has_single_quote name) (is_double_quotable name) k in
            rw (e, k) (unfold read_word step in read_word-double name d)
        | inr k ↦ rw (e, k) (read_word-quote_loop outside name)
      ]
    ]
