-- ===== src/TestCommand/Run.antt =====
-- `runTestExpression`, `cmdTest` and `cmdBracket` of testcmd.go. Messages are data.
pub mod Laws
use ba.Base.{
  ℕ, ◌+◌, Bool, true, false, not, ◌&&◌, ◌||◌, List, [], ◌∷◌, ◌++◌, Option, none, some, Bytes, codes,
  if◌then◌else◌, bytes_eq, Result, ok, err,
}
use ba.TestCommand.Operators.{
  World, TestError, unexpected_operand, is_test_binary, eval_test_binary, is_given,
}
use ba.TestCommand.Parser.{Parsed, parse_or, enough}

pub data Message : Type 0 where
  missing_bracket : Message
  failure : TestError → Message

pub record Run : Type 0 where
  pub status : ℕ
  pub messages : List Message

abbrev pub answer : Bool → Run
answer value = record { status = if value then 0 else 1; messages = [] }

abbrev pub verdict : Result TestError Bool → Run
verdict (ok value) = answer value
verdict (err e) = record { status = 2; messages = failure e ∷ [] }

-- `p.pos != len(args)`
abbrev pub whole : Parsed → Result TestError Bool
whole (ok (value, [])) = ok value
whole (ok (value, a ∷ rest)) = err (unexpected_operand a)
whole (err e) = err e

unfoldable pub run_parser : World → List Bytes → Run
run_parser w args = verdict (whole (parse_or w (enough args) args))

unfoldable pub run_test_expression : World → List Bytes → Run
unfolding run_parser
run_test_expression w [] = answer false
run_test_expression w (a ∷ []) = answer (is_given a)
run_test_expression w (a ∷ b ∷ []) =
    if bytes_eq a (codes "!") then answer (not (is_given b)) else run_parser w (a ∷ b ∷ [])
run_test_expression w (a ∷ b ∷ c ∷ []) =
    if is_test_binary b then verdict (eval_test_binary w a b c) else run_parser w (a ∷ b ∷ c ∷ [])
run_test_expression w args = run_parser w args

unfoldable pub cmd_test : World → List Bytes → Run
unfolding run_test_expression
cmd_test w args = run_test_expression w args

-- The arguments before a last one that is a closing bracket.
unfoldable pub before_bracket : List Bytes → Option (List Bytes)
before_bracket [] = none
before_bracket (a ∷ []) = if bytes_eq a (codes "]") then some [] else none
before_bracket (a ∷ b ∷ args) = elim (before_bracket (b ∷ args)) [
  | some front ↦ some (a ∷ front)
  | none ↦ none
]

abbrev pub run_before : World → Option (List Bytes) → Run
run_before w none = record { status = 2; messages = missing_bracket ∷ [] }
run_before w (some args) = run_test_expression w args

unfoldable pub cmd_bracket : World → List Bytes → Run
unfolding before_bracket run_test_expression
cmd_bracket w args = run_before w (before_bracket args)
