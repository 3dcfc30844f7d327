-- ===== src/Util/Quote/Force.antt =====
-- `quoteForceName`: a name that `shellQuoteName` leaves as it is gets a pair of quotes.
use ba.Base.{
  ℕ, ◌≡◌, refl, true, false, ◌&&◌, [], ◌∷◌, ◌++◌, some, Bytes, arith, ◌==◌, if◌then◌else◌,
  Bool-cases, inl, inr, bytes_eq, bytes_eq_refl,
}
use ba.Util.Quote.{
  outside, pending, group, quoted, ansi_c_escape, quote_loop, is_control, is_safe_byte,
  is_safe_name, is_alnum_byte, is_double_byte, is_double_quotable, has_single_quote,
  shell_quote_name, quote_force_name,
}
use ba.Util.Quote.Shell.{bare, single, step, read_word}
use ba.Util.Quote.Laws.{both, read_word-step, other-step, read_word-shell_quote_name}

safe-no_quote : (c : ℕ) → is_safe_byte c ≡ true → (c == 39) ≡ false
unfolding is_safe_byte is_alnum_byte
safe-no_quote c h = ground arith

double-no_double_quote : (c : ℕ) → is_double_byte c ≡ true → (34 == c) ≡ false
unfolding is_double_byte is_alnum_byte
double-no_double_quote c h = ground arith

read_word-single : (s : Bytes) → is_safe_name s ≡ true → read_word single (s ++ 39 ∷ []) ≡ some s
unfolding is_safe_name
read_word-single [] h = unfold read_word step in refl
read_word-single (b ∷ s) h =
    let (hb, hs) = both (is_safe_byte b) (is_safe_name s) h in
    let ih = read_word-single s hs in
    rw (read_word-step single single b (s ++ 39 ∷ []) (other-step b (safe-no_quote b hb)), ih)

first_differs :
    (b : ℕ) (s x y z : Bytes)
    → bytes_eq (if b == 39 then 92 ∷ x else if is_control b then 36 ∷ y else 39 ∷ z) (b ∷ s) ≡ false
unfolding is_control
first_differs b s x y z = ground arith

-- The quoted run begins with another byte than the name.
quote_loop-differs : (b : ℕ) (s : Bytes) → bytes_eq (quote_loop outside (b ∷ s)) (b ∷ s) ≡ false
unfolding quote_loop
quote_loop-differs b s =
    first_differs b s (39 ∷ quote_loop pending s) (39 ∷ (ansi_c_escape b ++ quote_loop group s))
      (b ∷ quote_loop quoted s)

shell_quote_name-differs :
    (b : ℕ) (s : Bytes)
    → is_safe_name (b ∷ s) ≡ false
    → bytes_eq (shell_quote_name (b ∷ s)) (b ∷ s) ≡ false
unfolding shell_quote_name is_double_quotable
shell_quote_name-differs b s e =
    let name = b ∷ s in
    elim (Bool-cases (has_single_quote name && is_double_quotable name)) [
      | inl k ↦
          let (q, d) = both (has_single_quote name) (is_double_quotable name) k in
          let (hb, hs) = both (is_double_byte b) (is_double_quotable s) d in
          rw (e, k, double-no_double_quote b hb)
      | inr k ↦ rw (e, k) (quote_loop-differs b s)
    ]

-- The text that `quoteForceName` writes for a name reads as one word of the shell, the name. Bare
-- bytes such as `~` and `#` are read for themselves.
pub read_word-quote_force_name : (name : Bytes) → read_word bare (quote_force_name name) ≡ some name
unfolding quote_force_name
read_word-quote_force_name [] = unfold shell_quote_name read_word step in refl
read_word-quote_force_name (b ∷ s) =
    let name = b ∷ s in
    elim (Bool-cases (is_safe_name name)) [
      | inl e ↦
          let same : shell_quote_name name ≡ name = unfold shell_quote_name in rw e in
          rw (same, bytes_eq_refl name) (unfold read_word step in read_word-single name e)
      | inr e ↦ rw (shell_quote_name-differs b s e) (read_word-shell_quote_name name)
    ]
