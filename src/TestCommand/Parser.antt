-- ===== src/TestCommand/Parser.antt =====
-- `testParser` of testcmd.go. The arguments from the position on stand for the parser's state. Each
-- call and each round of a loop costs a unit of fuel.
use ba.Base.{
  ℕ, zero, suc, ◌+◌, ◌*◌, Bool, not, ◌&&◌, ◌||◌, List, [], ◌∷◌, Option, none, some, Bytes, codes,
  if◌then◌else◌, bytes_eq, length, Result, ok, err, ◌>>=◌,
}
use ba.TestCommand.Operators.{
  World, TestError, missing_operand, missing_right, missing_paren, missing_expression, out_of_fuel,
  is_test_unary, is_test_binary, eval_test_unary, eval_test_binary, is_given,
}

-- `take`: the arguments behind `value`, if it comes next.
abbrev pub take_word : Bytes → List Bytes → Option (List Bytes)
take_word value [] = none
take_word value (a ∷ args) = if bytes_eq a value then some args else none

abbrev pub Parsed : Type 0
Parsed = Result TestError (Bool × List Bytes)

abbrev pub with_rest : List Bytes → Result TestError Bool → Parsed
with_rest rest (ok value) = ok (value, rest)
with_rest rest (err e) = err e

abbrev pub close : Bool → Option (List Bytes) → Parsed
close value (some rest) = ok (value, rest)
close value none = err missing_paren

-- The last part of `parsePrimary`, behind `left`.
unfoldable pub parse_operand : World → Bytes → List Bytes → Parsed
parse_operand w left [] = ok (is_given left, [])
parse_operand w left (op ∷ []) =
    if is_test_binary op then err (missing_right op) else ok (is_given left, op ∷ [])
parse_operand w left (op ∷ right ∷ rest) =
    if is_test_binary op
    then with_rest rest (eval_test_binary w left op right)
    else ok (is_given left, op ∷ right ∷ rest)

unfoldable pub parse_word : World → List Bytes → Parsed
unfolding parse_operand
parse_word w [] = err missing_expression
parse_word w (op ∷ []) =
    if is_test_unary op then err (missing_operand op) else parse_operand w op []
parse_word w (op ∷ value ∷ rest) =
    if is_test_unary op
    then with_rest rest (eval_test_unary w op value)
    else parse_operand w op (value ∷ rest)

module _ (w : World) where
  unfoldable mutual
    unfolding parse_word

    pub parse_or : ℕ → List Bytes → Parsed
    parse_or zero args = err out_of_fuel
    parse_or (suc f) args = parse_and f args >>= λ p. or_loop f p.0 p.1

    pub or_loop : ℕ → Bool → List Bytes → Parsed
    or_loop zero left args = err out_of_fuel
    or_loop (suc f) left args = elim (take_word (codes "-o") args) [
      | none ↦ ok (left, args)
      | some rest ↦ parse_and f rest >>= λ p. or_loop f (left || p.0) p.1
    ]

    pub parse_and : ℕ → List Bytes → Parsed
    parse_and zero args = err out_of_fuel
    parse_and (suc f) args = parse_not f args >>= λ p. and_loop f p.0 p.1

    pub and_loop : ℕ → Bool → List Bytes → Parsed
    and_loop zero left args = err out_of_fuel
    and_loop (suc f) left args = elim (take_word (codes "-a") args) [
      | none ↦ ok (left, args)
      | some rest ↦ parse_not f rest >>= λ p. and_loop f (left && p.0) p.1
    ]

    pub parse_not : ℕ → List Bytes → Parsed
    parse_not zero args = err out_of_fuel
    parse_not (suc f) args = elim (take_word (codes "!") args) [
      | none ↦ parse_primary f args
      | some rest ↦ parse_not f rest >>= λ p. ok (not p.0, p.1)
    ]

    pub parse_primary : ℕ → List Bytes → Parsed
    parse_primary zero args = err out_of_fuel
    parse_primary (suc f) args = elim (take_word (codes "(") args) [
      | none ↦ parse_word w args
      | some rest ↦ parse_or f rest >>= λ p. close p.0 (take_word (codes ")") p.1)
    ]

-- Enough for any arguments: `TestCommand.Termination`.
abbrev pub enough : List Bytes → ℕ
enough args = 4 * length args + 5
