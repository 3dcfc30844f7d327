-- ===== src/TestCommand/Run/Laws.antt =====
-- Runs of test(1) and [(1) on all expressions.
use ba.Base.{
  ◌<◌, ◌≡◌, refl, ap, ◌∙◌, Bool, List, [], ◌∷◌, ◌++◌, some, Bytes, codes, arith, length, Result, ok,
  err,
}
use ba.TestCommand.Operators.{World, TestError}
use ba.TestCommand.Parser.{with_rest}
use ba.TestCommand.Syntax.{Or, print_or, eval_or, IsOr}
use ba.TestCommand.RoundTrip.{parse_or-print_or}
use ba.TestCommand.Run.{
  verdict, whole, run_parser, run_test_expression, cmd_test, before_bracket, run_before,
  cmd_bracket,
}

whole-with_rest : (r : Result TestError Bool) → whole (with_rest [] r) ≡ r
whole-with_rest (ok v) = refl
whole-with_rest (err e) = refl

run_test_expression-long :
    (w : World) (args : List Bytes)
    → 3 < length args
    → run_test_expression w args ≡ run_parser w args
unfolding run_test_expression
run_test_expression-long w [] h = absurd (omega arith)
run_test_expression-long w (a ∷ []) h = absurd (omega arith)
run_test_expression-long w (a ∷ b ∷ []) h = absurd (omega arith)
run_test_expression-long w (a ∷ b ∷ c ∷ []) h = absurd (omega arith)
run_test_expression-long w (a ∷ b ∷ c ∷ d ∷ args) h = refl

before_bracket-append : (args : List Bytes) → before_bracket (args ++ codes "]" ∷ []) ≡ some args
unfolding before_bracket
before_bracket-append [] = refl
before_bracket-append (a ∷ []) = refl
before_bracket-append (a ∷ b ∷ args) = let ih = before_bracket-append (b ∷ args) in rw ih

-- `test EXPRESSION` and `[ EXPRESSION ]`, for an expression of the grammar that is written with more
-- than three words: exit status 0 if it is true, 1 if it is false, and 2 with a message for the first
-- error of its evaluation, which goes from left to right and leaves nothing out.
pub cmd_test-eval_or :
    (w : World) (e : Or)
    → IsOr e
    → 3 < length (print_or e [])
    → (cmd_test w (print_or e []) ≡ verdict (eval_or w e))
      × (cmd_bracket w (print_or e [] ++ codes "]" ∷ []) ≡ verdict (eval_or w e))
unfolding cmd_test cmd_bracket
cmd_test-eval_or w e v long =
    let parsed = ap whole (parse_or-print_or w e v) ∙ whole-with_rest (eval_or w e) in
    let run =
      run_test_expression-long w (print_or e []) long ∙ (unfold run_parser in ap verdict parsed) in
    (run, ap (run_before w) (before_bracket-append (print_or e [])) ∙ run)
