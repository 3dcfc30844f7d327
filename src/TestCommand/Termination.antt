-- ===== src/TestCommand/Termination.antt =====
-- The parser of testcmd.go ends on all arguments within its fuel.
use ba.Base.{
  ℕ, zero, suc, ◌+◌, ◌*◌, ◌≤◌, ◌≡◌, ◌≢◌, ap, Bool, true, false, not, ◌&&◌, ◌||◌, List, [], ◌∷◌,
  Option, none, some, Bytes, codes, arith, if◌then◌else◌, bytes_eq, length, Result, ok, err, ◌>>=◌,
  Bool-cases, inl, inr,
}
use ba.Head.Count.{parse_int}
use ba.TestCommand.Operators.{
  World, TestError, out_of_fuel, is_test_unary, is_test_binary, eval_test_unary, eval_test_binary,
  eval_stat, eval_ints, compare_ints, test_descriptor, Info,
}
use ba.TestCommand.Parser.{
  Parsed, take_word, with_rest, close, parse_operand, parse_word, parse_or, or_loop, parse_and,
  and_loop, parse_not, parse_primary,
}

-- A result that is no lack of fuel, and leaves at most `n` arguments.
abbrev pub Ends : ℕ → Parsed → Type 0
Ends n (ok (value, rest)) = length rest ≤ n
Ends n (err e) = e ≢ out_of_fuel

-- An evaluation never asks for fuel.
abbrev Fuelless : Result TestError Bool → Type 0
Fuelless r = r ≢ err out_of_fuel

Ends-bind :
    (n k : ℕ) (m : Parsed) (g : Bool × List Bytes → Parsed)
    → Ends n m
    → ((v : Bool) (rest : List Bytes) → length rest ≤ n → Ends k (g (v, rest)))
    → Ends k (m >>= g)
Ends-bind n k (ok (v, rest)) g h next = next v rest h
Ends-bind n k (err e) g h next = h

Ends-with_rest :
    (n : ℕ) (rest : List Bytes) (r : Result TestError Bool)
    → Fuelless r
    → length rest ≤ n
    → Ends n (with_rest rest r)
Ends-with_rest n rest (ok value) h le = le
Ends-with_rest n rest (err e) h le = λ q. h (ap err q)

Fuelless-if :
    (b : Bool) (x y : Result TestError Bool)
    → Fuelless x
    → Fuelless y
    → Fuelless (if b then x else y)
Fuelless-if true x y hx hy = hx
Fuelless-if false x y hx hy = hy

eval_stat-Fuelless : (op : Bytes) (info : Option Info) → Fuelless (eval_stat op info)
unfolding eval_stat
eval_stat-Fuelless op none = cc
eval_stat-Fuelless op (some info) = ground arith

test_descriptor-Fuelless :
    (w : World) (v : Bytes) (n : Option (Bool × ℕ)) → Fuelless (test_descriptor w v n)
unfolding test_descriptor
test_descriptor-Fuelless w v n = ground arith

eval_test_unary-Fuelless : (w : World) (op value : Bytes) → Fuelless (eval_test_unary w op value)
unfolding eval_test_unary
eval_test_unary-Fuelless w op value = ground (
  arith,
  eval_stat-Fuelless op (w.stat value),
  test_descriptor-Fuelless w value (parse_int value),
)

compare_ints-Fuelless : (op : Bytes) (a b : Bool × ℕ) → Fuelless (compare_ints op a b)
unfolding compare_ints
compare_ints-Fuelless op a b = ground arith

eval_ints-Fuelless : (l op r : Bytes) (a b : Option (Bool × ℕ)) → Fuelless (eval_ints l op r a b)
unfolding eval_ints
eval_ints-Fuelless l op r none b = cc
eval_ints-Fuelless l op r (some a) none = cc
eval_ints-Fuelless l op r (some a) (some b) = compare_ints-Fuelless op a b

eval_test_binary-Fuelless : (w : World) (l op r : Bytes) → Fuelless (eval_test_binary w l op r)
unfolding eval_test_binary
eval_test_binary-Fuelless w l op r =
    ground (arith, eval_ints-Fuelless l op r (parse_int l) (parse_int r))

Ends-if : (n : ℕ) (b : Bool) (x y : Parsed) → Ends n x → Ends n y → Ends n (if b then x else y)
Ends-if n true x y hx hy = hx
Ends-if n false x y hx hy = hy

parse_operand-Ends :
    (w : World) (left : Bytes) (args : List Bytes) → Ends (length args) (parse_operand w left args)
unfolding parse_operand
parse_operand-Ends w left [] = omega arith
parse_operand-Ends w left (op ∷ []) = Ends-if 1 (is_test_binary op) _ _ (cc) (omega arith)
parse_operand-Ends w left (op ∷ right ∷ rest) =
    let value = eval_test_binary w left op right in
    let evaluated =
      Ends-with_rest (length rest + 2) rest value (eval_test_binary-Fuelless w left op right)
        (omega arith) in
    let n : length rest + 2 ≡ length (op ∷ right ∷ rest) = omega arith in
    Ends-if (length (op ∷ right ∷ rest)) (is_test_binary op) _ _ (rw n at evaluated) (omega arith)

Ends-le : (m n : ℕ) (p : Parsed) → m ≤ n → Ends m p → Ends n p
Ends-le m n (ok (v, rest)) le h = omega arith
Ends-le m n (err e) le h = h

parse_word-Ends : (w : World) (args : List Bytes) → Ends (length args) (parse_word w args)
unfolding parse_word
parse_word-Ends w [] = cc
parse_word-Ends w (op ∷ []) =
    Ends-if 1 (is_test_unary op) _ _ (cc)
      (Ends-le 0 1 (parse_operand w op []) (omega arith) (parse_operand-Ends w op []))
parse_word-Ends w (op ∷ value ∷ rest) =
    let n = length (op ∷ value ∷ rest) in
    Ends-if n (is_test_unary op) _ _
      (Ends-with_rest n rest (eval_test_unary w op value) (eval_test_unary-Fuelless w op value)
        (omega arith))
      (Ends-le (length (value ∷ rest)) n (parse_operand w op (value ∷ rest)) (omega arith)
        (parse_operand-Ends w op (value ∷ rest)))

-- What follows a word that is taken is shorter.
Takes : List Bytes → Option (List Bytes) → Type 0
Takes args none = Unit
Takes args (some rest) = length rest + 1 ≤ length args

take_word-Takes : (value : Bytes) (args : List Bytes) → Takes args (take_word value args)
unfolding Takes
take_word-Takes value [] = tt
take_word-Takes value (a ∷ args) = elim (Bool-cases (bytes_eq a value)) [
  | inl e ↦ rw e (omega arith)
  | inr e ↦ rw e tt
]

close-Ends :
    (n : ℕ) (v : Bool) (args : List Bytes)
    → length args ≤ n
    → Ends n (close v (take_word (codes ")") args))
close-Ends n v args le = go (take_word (codes ")") args) (take_word-Takes (codes ")") args)
  where
    go : (o : Option (List Bytes)) → Takes args o → Ends n (close v o)
    go none h = cc
    go (some rest) h = unfold Takes in omega arith

-- A step that goes on behind a word if it comes next.
Ends-take :
    (n : ℕ) (value : Bytes) (args : List Bytes) (d : Parsed) (k : List Bytes → Parsed)
    → Ends n d
    → ((rest : List Bytes) → length rest + 1 ≤ length args → Ends n (k rest))
    → Ends n (elim (take_word value args) [ none ↦ d | some rest ↦ k rest ])
Ends-take n value args d k hd hk = go (take_word value args) (take_word-Takes value args)
  where
    go :
        (o : Option (List Bytes)) → Takes args o → Ends n (elim o [ none ↦ d | some rest ↦ k rest ])
    go none t = hd
    go (some rest) t = hk rest (unfold Takes in t)

module _ (w : World) where
  mutual
    unfolding parse_or or_loop parse_and and_loop parse_not parse_primary

    parse_or_within-Ends :
        (f : ℕ) (args : List Bytes)
        → 4 * length args + 4 ≤ f
        → Ends (length args) (parse_or w f args)
    parse_or_within-Ends zero args h = absurd (omega arith)
    parse_or_within-Ends (suc f) args h =
        Ends-bind (length args) (length args) (parse_and w f args) (λ p. or_loop w f p.0 p.1)
          (parse_and-Ends f args (omega arith))
          (λ v rest le.
            Ends-le (length rest) (length args) (or_loop w f v rest) le
              (or_loop-Ends f v rest (omega arith)))

    or_loop-Ends :
        (f : ℕ) (left : Bool) (args : List Bytes)
        → 4 * length args + 1 ≤ f
        → Ends (length args) (or_loop w f left args)
    or_loop-Ends zero left args h = absurd (omega arith)
    or_loop-Ends (suc f) left args h =
        Ends-take (length args) (codes "-o") args (ok (left, args))
          (λ rest. parse_and w f rest >>= λ p. or_loop w f (left || p.0) p.1) (omega arith)
          (λ rest lt.
            Ends-bind (length rest) (length args) (parse_and w f rest)
              (λ p. or_loop w f (left || p.0) p.1) (parse_and-Ends f rest (omega arith))
              (λ v rest' le.
                Ends-le (length rest') (length args) (or_loop w f (left || v) rest') (omega arith)
                  (or_loop-Ends f (left || v) rest' (omega arith))))

    parse_and-Ends :
        (f : ℕ) (args : List Bytes)
        → 4 * length args + 3 ≤ f
        → Ends (length args) (parse_and w f args)
    parse_and-Ends zero args h = absurd (omega arith)
    parse_and-Ends (suc f) args h =
        Ends-bind (length args) (length args) (parse_not w f args) (λ p. and_loop w f p.0 p.1)
          (parse_not-Ends f args (omega arith))
          (λ v rest le.
            Ends-le (length rest) (length args) (and_loop w f v rest) le
              (and_loop-Ends f v rest (omega arith)))

    and_loop-Ends :
        (f : ℕ) (left : Bool) (args : List Bytes)
        → 4 * length args + 1 ≤ f
        → Ends (length args) (and_loop w f left args)
    and_loop-Ends zero left args h = absurd (omega arith)
    and_loop-Ends (suc f) left args h =
        Ends-take (length args) (codes "-a") args (ok (left, args))
          (λ rest. parse_not w f rest >>= λ p. and_loop w f (left && p.0) p.1) (omega arith)
          (λ rest lt.
            Ends-bind (length rest) (length args) (parse_not w f rest)
              (λ p. and_loop w f (left && p.0) p.1) (parse_not-Ends f rest (omega arith))
              (λ v rest' le.
                Ends-le (length rest') (length args) (and_loop w f (left && v) rest') (omega arith)
                  (and_loop-Ends f (left && v) rest' (omega arith))))

    parse_not-Ends :
        (f : ℕ) (args : List Bytes)
        → 4 * length args + 2 ≤ f
        → Ends (length args) (parse_not w f args)
    parse_not-Ends zero args h = absurd (omega arith)
    parse_not-Ends (suc f) args h =
        Ends-take (length args) (codes "!") args (parse_primary w f args)
          (λ rest. parse_not w f rest >>= λ p. ok (not p.0, p.1))
          (parse_primary-Ends f args (omega arith))
          (λ rest lt.
            Ends-bind (length rest) (length args) (parse_not w f rest) (λ p. ok (not p.0, p.1))
              (parse_not-Ends f rest (omega arith)) (λ v rest' le. omega arith))

    parse_primary-Ends :
        (f : ℕ) (args : List Bytes)
        → 4 * length args + 1 ≤ f
        → Ends (length args) (parse_primary w f args)
    parse_primary-Ends zero args h = absurd (omega arith)
    parse_primary-Ends (suc f) args h =
        Ends-take (length args) (codes "(") args (parse_word w args)
          (λ rest. parse_or w f rest >>= λ p. close p.0 (take_word (codes ")") p.1))
          (parse_word-Ends w args)
          (λ rest lt.
            Ends-bind (length rest) (length args) (parse_or w f rest)
              (λ p. close p.0 (take_word (codes ")") p.1))
              (parse_or_within-Ends f rest (omega arith))
              (λ v rest' le. close-Ends (length args) v rest' (omega arith)))
