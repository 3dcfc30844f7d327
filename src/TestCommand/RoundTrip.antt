-- ===== src/TestCommand/RoundTrip.antt =====
-- What the parser of testcmd.go makes of a written expression is the value of the expression.
use ba.Base.{
  ℕ, zero, suc, ◌+◌, ◌*◌, ◌≤◌, ◌≡◌, refl, Bool, true, false, not, ◌&&◌, ◌||◌, List, [], ◌∷◌, none,
  Bytes, codes, arith, bytes_eq, bytes_eq→eq, Bool-cases, inl, inr, length, Result, ok, err, ◌>>=◌,
}
use ba.TestCommand.Operators.{World, TestError, is_test_unary, is_test_binary, is_given}
use ba.TestCommand.Parser.{
  Parsed, take_word, with_rest, close, parse_operand, parse_word, parse_or, or_loop, parse_and,
  and_loop, parse_not, parse_primary, enough,
}
use ba.TestCommand.Syntax.{
  Or, or_of, OrTail, or_end, or_more, And, and_of, AndTail, and_end, and_more, Not, bang, plain,
  Primary, paren, unary, binary, word, print_or, print_or_tail, print_and, print_and_tail,
  print_not, print_primary, eval_or, eval_or_tail, eval_and, eval_and_tail, eval_not, eval_primary,
  IsOr, IsOrTail, IsAnd, IsAndTail, IsNot, IsPrimary,
}

-- The fuel that an expression takes, at most.
abbrev mutual
  cost_or : Or → ℕ
  cost_or (or_of a t) = suc (cost_and a + cost_or_tail t)

  cost_or_tail : OrTail → ℕ
  cost_or_tail or_end = 1
  cost_or_tail (or_more a t) = suc (cost_and a + cost_or_tail t)

  cost_and : And → ℕ
  cost_and (and_of n t) = suc (cost_not n + cost_and_tail t)

  cost_and_tail : AndTail → ℕ
  cost_and_tail and_end = 1
  cost_and_tail (and_more n t) = suc (cost_not n + cost_and_tail t)

  cost_not : Not → ℕ
  cost_not (bang n) = suc (cost_not n)
  cost_not (plain p) = suc (cost_primary p)

  cost_primary : Primary → ℕ
  cost_primary (paren e) = suc (cost_or e)
  cost_primary p = 1

-- What may follow an operand: no binary operator.
abbrev NoBinary : List Bytes → Type 0
NoBinary [] = Unit
NoBinary (a ∷ rest) = is_test_binary a ≡ false

print_and_tail-NoBinary :
    (t : AndTail) (rest : List Bytes) → NoBinary rest → NoBinary (print_and_tail t rest)
unfolding print_and_tail is_test_binary
print_and_tail-NoBinary and_end rest h = h
print_and_tail-NoBinary (and_more n t) rest h = refl

print_or_tail-NoBinary :
    (t : OrTail) (rest : List Bytes) → NoBinary rest → NoBinary (print_or_tail t rest)
unfolding print_or_tail is_test_binary
print_or_tail-NoBinary or_end rest h = h
print_or_tail-NoBinary (or_more n t) rest h = refl

take_word-print_or_tail :
    (t : OrTail) (rest : List Bytes)
    → take_word (codes "-a") rest ≡ none
    → take_word (codes "-a") (print_or_tail t rest) ≡ none
unfolding print_or_tail
take_word-print_or_tail or_end rest h = h
take_word-print_or_tail (or_more a t) rest h = refl

with_rest-bind :
    (rest rest' : List Bytes) (r : Result TestError Bool) (g : Bool × List Bytes → Parsed)
    (k : Bool → Result TestError Bool)
    → ((v : Bool) → g (v, rest) ≡ with_rest rest' (k v))
    → (with_rest rest r >>= g) ≡ with_rest rest' (r >>= k)
with_rest-bind rest rest' (ok v) g k h = h v
with_rest-bind rest rest' (err e) g k h = refl

-- The operators are no words of the grammar.
unary-ne :
    (op : Bytes) (c : ℕ)
    → is_test_unary op ≡ true
    → is_test_unary (c ∷ []) ≡ false
    → bytes_eq op (c ∷ []) ≡ false
unary-ne op c u n = elim (Bool-cases (bytes_eq op (c ∷ []))) [
  | inl e ↦ let same = bytes_eq→eq op (c ∷ []) e in cc
  | inr e ↦ e
]

word_lem :
    (w : World) (s : Bytes) (rest : List Bytes)
    → is_test_unary s ≡ false
    → NoBinary rest
    → parse_word w (s ∷ rest) ≡ ok (is_given s, rest)
unfolding parse_word parse_operand
word_lem w s [] u h = rw u
word_lem w s (a ∷ []) u h = rw (u, h)
word_lem w s (a ∷ b ∷ rest) u h = rw (u, h)

parens :
    (r : Result TestError Bool) (rest : List Bytes)
    → (with_rest (codes ")" ∷ rest) r >>= λ p. close p.0 (take_word (codes ")") p.1))
      ≡ with_rest rest r
parens (ok v) rest = refl
parens (err e) rest = refl

module _ (w : World) where
  mutual
    unfolding parse_or or_loop parse_and and_loop parse_not parse_primary print_or print_or_tail
        print_and print_and_tail print_not print_primary eval_or eval_or_tail eval_and eval_and_tail
        eval_not eval_primary IsOr IsOrTail IsAnd IsAndTail IsNot IsPrimary is_test_unary
        is_test_binary parse_word

    or_lem :
        (f : ℕ) (e : Or) (rest : List Bytes)
        → cost_or e ≤ f
        → IsOr e
        → NoBinary rest
        → take_word (codes "-a") rest ≡ none
        → take_word (codes "-o") rest ≡ none
        → parse_or w f (print_or e rest) ≡ with_rest rest (eval_or w e)
    or_lem zero (or_of a t) rest c v b na oo = absurd (omega arith)
    or_lem (suc f) (or_of a t) rest c (va, vt) b na oo =
        let first =
          and_lem f a (print_or_tail t rest) (omega arith) va (print_or_tail-NoBinary t rest b)
            (take_word-print_or_tail t rest na) in
        rw first (
          with_rest-bind (print_or_tail t rest) rest (eval_and w a) (λ p. or_loop w f p.0 p.1)
            (λ u. eval_or_tail w u t) (λ u. or_tail_lem f u t rest (omega arith) vt b na oo))

    or_tail_lem :
        (f : ℕ) (left : Bool) (t : OrTail) (rest : List Bytes)
        → cost_or_tail t ≤ f
        → IsOrTail t
        → NoBinary rest
        → take_word (codes "-a") rest ≡ none
        → take_word (codes "-o") rest ≡ none
        → or_loop w f left (print_or_tail t rest) ≡ with_rest rest (eval_or_tail w left t)
    or_tail_lem zero left or_end rest c v b na oo = absurd (omega arith)
    or_tail_lem zero left (or_more a t) rest c v b na oo = absurd (omega arith)
    or_tail_lem (suc f) left or_end rest c v b na oo = rw (oo, or_loop)
    or_tail_lem (suc f) left (or_more a t) rest c (va, vt) b na oo =
        let first =
          and_lem f a (print_or_tail t rest) (omega arith) va (print_or_tail-NoBinary t rest b)
            (take_word-print_or_tail t rest na) in
        rw first (
          with_rest-bind (print_or_tail t rest) rest (eval_and w a)
            (λ p. or_loop w f (left || p.0) p.1) (λ u. eval_or_tail w (left || u) t)
            (λ u. or_tail_lem f (left || u) t rest (omega arith) vt b na oo))

    and_lem :
        (f : ℕ) (e : And) (rest : List Bytes)
        → cost_and e ≤ f
        → IsAnd e
        → NoBinary rest
        → take_word (codes "-a") rest ≡ none
        → parse_and w f (print_and e rest) ≡ with_rest rest (eval_and w e)
    and_lem zero (and_of n t) rest c v b na = absurd (omega arith)
    and_lem (suc f) (and_of n t) rest c (vn, vt) b na =
        let first =
          not_lem f n (print_and_tail t rest) (omega arith) vn (print_and_tail-NoBinary t rest b) in
        rw first (
          with_rest-bind (print_and_tail t rest) rest (eval_not w n) (λ p. and_loop w f p.0 p.1)
            (λ u. eval_and_tail w u t) (λ u. and_tail_lem f u t rest (omega arith) vt b na))

    and_tail_lem :
        (f : ℕ) (left : Bool) (t : AndTail) (rest : List Bytes)
        → cost_and_tail t ≤ f
        → IsAndTail t
        → NoBinary rest
        → take_word (codes "-a") rest ≡ none
        → and_loop w f left (print_and_tail t rest) ≡ with_rest rest (eval_and_tail w left t)
    and_tail_lem zero left and_end rest c v b na = absurd (omega arith)
    and_tail_lem zero left (and_more n t) rest c v b na = absurd (omega arith)
    and_tail_lem (suc f) left and_end rest c v b na = rw (na, and_loop)
    and_tail_lem (suc f) left (and_more n t) rest c (vn, vt) b na =
        let first =
          not_lem f n (print_and_tail t rest) (omega arith) vn (print_and_tail-NoBinary t rest b) in
        rw first (
          with_rest-bind (print_and_tail t rest) rest (eval_not w n)
            (λ p. and_loop w f (left && p.0) p.1) (λ u. eval_and_tail w (left && u) t)
            (λ u. and_tail_lem f (left && u) t rest (omega arith) vt b na))

    not_lem :
        (f : ℕ) (e : Not) (rest : List Bytes)
        → cost_not e ≤ f
        → IsNot e
        → NoBinary rest
        → parse_not w f (print_not e rest) ≡ with_rest rest (eval_not w e)
    not_lem zero (bang n) rest c v b = absurd (omega arith)
    not_lem zero (plain p) rest c v b = absurd (omega arith)
    not_lem (suc f) (bang n) rest c v b =
        let first = not_lem f n rest (omega arith) v b in
        rw first (
          with_rest-bind rest rest (eval_not w n) (λ p. ok (not p.0, p.1)) (λ u. ok (not u))
            (λ u. refl))
    not_lem (suc f) (plain (paren e)) rest c v b = primary_lem f (paren e) rest (omega arith) v b
    not_lem (suc f) (plain (unary op value)) rest c v b =
        rw (unary-ne op b'!' v refl, parse_not)
          (primary_lem f (unary op value) rest (omega arith) v b)
    not_lem (suc f) (plain (binary left op right)) rest c ((v1, v2, v3), v4) b =
        rw (v1, parse_not)
          (primary_lem f (binary left op right) rest (omega arith) ((v1, v2, v3), v4) b)
    not_lem (suc f) (plain (word s)) rest c (v1, v2, v3) b =
        rw (v1, parse_not) (primary_lem f (word s) rest (omega arith) (v1, v2, v3) b)

    primary_lem :
        (f : ℕ) (e : Primary) (rest : List Bytes)
        → cost_primary e ≤ f
        → IsPrimary e
        → NoBinary rest
        → parse_primary w f (print_primary e rest) ≡ with_rest rest (eval_primary w e)
    primary_lem zero (paren e) rest c v b = absurd (omega arith)
    primary_lem zero (unary op value) rest c v b = absurd (omega arith)
    primary_lem zero (binary left op right) rest c v b = absurd (omega arith)
    primary_lem zero (word s) rest c v b = absurd (omega arith)
    primary_lem (suc f) (paren e) rest c v b =
        let first = or_lem f e (codes ")" ∷ rest) (omega arith) v refl refl refl in
        rw first (parens (eval_or w e) rest)
    primary_lem (suc f) (unary op value) rest c v b = rw (unary-ne op b'(' v refl, parse_primary, v)
    primary_lem (suc f) (binary left op right) rest c ((v1, v2, v3), v4) b =
        rw (v2, parse_primary, v3, parse_operand, v4)
    primary_lem (suc f) (word s) rest c (v1, v2, v3) b =
        rw (v2, parse_primary) (word_lem w s rest v3 b)

-- Four units for each word and five more are enough.
mutual
  unfolding print_or print_or_tail print_and print_and_tail print_not print_primary

  cost_or-le :
      (e : Or) (rest : List Bytes) → cost_or e + 4 * length rest ≤ 4 * length (print_or e rest) + 5
  cost_or-le (or_of a t) rest =
      omega (arith, cost_and-le a (print_or_tail t rest), cost_or_tail-le t rest)

  cost_or_tail-le :
      (t : OrTail) (rest : List Bytes)
      → cost_or_tail t + 4 * length rest ≤ 4 * length (print_or_tail t rest) + 1
  cost_or_tail-le or_end rest = omega arith
  cost_or_tail-le (or_more a t) rest =
      omega (arith, cost_and-le a (print_or_tail t rest), cost_or_tail-le t rest)

  cost_and-le :
      (e : And) (rest : List Bytes)
      → cost_and e + 4 * length rest ≤ 4 * length (print_and e rest) + 3
  cost_and-le (and_of n t) rest =
      omega (arith, cost_not-le n (print_and_tail t rest), cost_and_tail-le t rest)

  cost_and_tail-le :
      (t : AndTail) (rest : List Bytes)
      → cost_and_tail t + 4 * length rest ≤ 4 * length (print_and_tail t rest) + 1
  cost_and_tail-le and_end rest = omega arith
  cost_and_tail-le (and_more n t) rest =
      omega (arith, cost_not-le n (print_and_tail t rest), cost_and_tail-le t rest)

  cost_not-le :
      (e : Not) (rest : List Bytes)
      → cost_not e + 4 * length rest ≤ 4 * length (print_not e rest) + 1
  cost_not-le (bang n) rest = omega (arith, cost_not-le n rest)
  cost_not-le (plain p) rest = omega (arith, cost_primary-le p rest)

  cost_primary-le :
      (e : Primary) (rest : List Bytes)
      → cost_primary e + 4 * length rest ≤ 4 * length (print_primary e rest)
  cost_primary-le (paren e) rest = omega (arith, cost_or-le e (codes ")" ∷ rest))
  cost_primary-le (unary op value) rest = omega arith
  cost_primary-le (binary left op right) rest = omega arith
  cost_primary-le (word s) rest = omega arith

-- The parser reads a written expression to its end, and its result is the value of the expression or
-- the first error of its evaluation.
pub parse_or-print_or :
    (w : World) (e : Or)
    → IsOr e
    → parse_or w (enough (print_or e [])) (print_or e []) ≡ with_rest [] (eval_or w e)
parse_or-print_or w e v =
    or_lem w (enough (print_or e [])) e [] (omega (arith, cost_or-le e [])) v tt refl refl
