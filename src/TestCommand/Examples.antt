-- ===== src/TestCommand/Examples.antt =====
-- Runs of test(1), and the theorems about testcmd.go at concrete expressions.
use ba.Base.{◌≡◌, refl, false, [], ◌∷◌, ◌++◌, none, codes, arith}
use ba.Head.Count.{parse_int}
use ba.TestCommand.Operators.{
  World, is_test_unary, is_test_binary, eval_test_unary, eval_test_binary, missing_paren,
}
use ba.TestCommand.Parser.{parse_or}
use ba.TestCommand.Syntax.{
  Or, or_of, or_end, or_more, and_of, and_end, and_more, bang, plain, unary, binary, word, paren,
  print_or, eval_or, IsOr,
}
use ba.TestCommand.Run.{verdict, failure, cmd_test, cmd_bracket}
use ba.TestCommand.Run.Laws.{cmd_test-eval_or}

abbrev nothing : World
nothing = record {
  stat = λ name. none;
  lstat = λ name. none;
  access = λ name mode. false;
  is_terminal = λ n. false;
  same_file = λ a b. false;
}

-- ! -z x -a ( 2 -lt 10 -o no )
abbrev both : Or
both =
    or_of
      (and_of (bang (plain (unary (codes "-z") (codes "x")))) (
        and_more
          (plain (
            paren (
              or_of (and_of (plain (binary (codes "2") (codes "-lt") (codes "10"))) and_end)
                (or_more (and_of (plain (word (codes "no"))) and_end) or_end))))
          and_end))
      or_end

both-IsOr : IsOr both
unfolding IsOr is_test_unary is_test_binary
both-IsOr = ((refl, (((((refl, refl, refl), refl), tt), (((refl, refl, refl), tt), tt)), tt)), tt)

is_true : cmd_test nothing (print_or both []) ≡ record { status = 0; messages = [] }
unfolding cmd_test print_or parse_or is_test_unary is_test_binary eval_test_unary eval_test_binary
    parse_int
is_true = refl

open_paren :
    cmd_test nothing (codes "(" ∷ codes "a" ∷ codes "-a" ∷ codes "b" ∷ [])
    ≡ record { status = 2; messages = failure missing_paren ∷ [] }
unfolding cmd_test parse_or is_test_unary is_test_binary
open_paren = refl

-- Three words with an operator in the middle are a comparison, also between parentheses.
compared :
    cmd_bracket nothing (codes "(" ∷ codes "=" ∷ codes ")" ∷ codes "]" ∷ [])
    ≡ record { status = 1; messages = [] }
unfolding cmd_bracket is_test_binary eval_test_binary
compared = refl

cmd_test-eval_or_example :
    (cmd_test nothing (print_or both []) ≡ verdict (eval_or nothing both))
    × (cmd_bracket nothing (print_or both [] ++ codes "]" ∷ []) ≡ verdict (eval_or nothing both))
unfolding print_or
cmd_test-eval_or_example = cmd_test-eval_or nothing both both-IsOr (omega arith)
