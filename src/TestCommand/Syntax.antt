-- ===== src/TestCommand/Syntax.antt =====
-- The expressions of test(1), how they are written, and what they are worth: every operand is
-- evaluated, from left to right.
use ba.Base.{
  ◌≡◌, Bool, true, false, not, ◌&&◌, ◌||◌, List, ◌∷◌, Bytes, codes, bytes_eq, Result, ok, ◌>>=◌,
}
use ba.TestCommand.Operators.{
  World, TestError, is_test_unary, is_test_binary, eval_test_unary, eval_test_binary, is_given,
}

mutual
  pub data Or : Type 0 where
    or_of : And → OrTail → Or

  pub data OrTail : Type 0 where
    or_end : OrTail
    or_more : And → OrTail → OrTail

  pub data And : Type 0 where
    and_of : Not → AndTail → And

  pub data AndTail : Type 0 where
    and_end : AndTail
    and_more : Not → AndTail → AndTail

  pub data Not : Type 0 where
    bang : Not → Not
    plain : Primary → Not

  pub data Primary : Type 0 where
    paren : Or → Primary
    unary : Bytes → Bytes → Primary
    binary : Bytes → Bytes → Bytes → Primary
    word : Bytes → Primary

-- The words of an expression, and what follows them.
unfoldable mutual
  pub print_or : Or → List Bytes → List Bytes
  print_or (or_of a t) rest = print_and a (print_or_tail t rest)

  pub print_or_tail : OrTail → List Bytes → List Bytes
  print_or_tail or_end rest = rest
  print_or_tail (or_more a t) rest = codes "-o" ∷ print_and a (print_or_tail t rest)

  pub print_and : And → List Bytes → List Bytes
  print_and (and_of n t) rest = print_not n (print_and_tail t rest)

  pub print_and_tail : AndTail → List Bytes → List Bytes
  print_and_tail and_end rest = rest
  print_and_tail (and_more n t) rest = codes "-a" ∷ print_not n (print_and_tail t rest)

  pub print_not : Not → List Bytes → List Bytes
  print_not (bang n) rest = codes "!" ∷ print_not n rest
  print_not (plain p) rest = print_primary p rest

  pub print_primary : Primary → List Bytes → List Bytes
  print_primary (paren e) rest = codes "(" ∷ print_or e (codes ")" ∷ rest)
  print_primary (unary op value) rest = op ∷ value ∷ rest
  print_primary (binary left op right) rest = left ∷ op ∷ right ∷ rest
  print_primary (word s) rest = s ∷ rest

module _ (w : World) where
  unfoldable mutual
    pub eval_or : Or → Result TestError Bool
    eval_or (or_of a t) = eval_and a >>= λ v. eval_or_tail v t

    pub eval_or_tail : Bool → OrTail → Result TestError Bool
    eval_or_tail left or_end = ok left
    eval_or_tail left (or_more a t) = eval_and a >>= λ v. eval_or_tail (left || v) t

    pub eval_and : And → Result TestError Bool
    eval_and (and_of n t) = eval_not n >>= λ v. eval_and_tail v t

    pub eval_and_tail : Bool → AndTail → Result TestError Bool
    eval_and_tail left and_end = ok left
    eval_and_tail left (and_more n t) = eval_not n >>= λ v. eval_and_tail (left && v) t

    pub eval_not : Not → Result TestError Bool
    eval_not (bang n) = eval_not n >>= λ v. ok (not v)
    eval_not (plain p) = eval_primary p

    pub eval_primary : Primary → Result TestError Bool
    eval_primary (paren e) = eval_or e
    eval_primary (unary op value) = eval_test_unary w op value
    eval_primary (binary left op right) = eval_test_binary w left op right
    eval_primary (word s) = ok (is_given s)

-- A word that the parser does not take for an operator.
abbrev pub IsWord : Bytes → Type 0
IsWord s =
    (bytes_eq s (codes "!") ≡ false) × (bytes_eq s (codes "(") ≡ false) × (is_test_unary s ≡ false)

unfoldable mutual
  pub IsOr : Or → Type 0
  IsOr (or_of a t) = IsAnd a × IsOrTail t

  pub IsOrTail : OrTail → Type 0
  IsOrTail or_end = Unit
  IsOrTail (or_more a t) = IsAnd a × IsOrTail t

  pub IsAnd : And → Type 0
  IsAnd (and_of n t) = IsNot n × IsAndTail t

  pub IsAndTail : AndTail → Type 0
  IsAndTail and_end = Unit
  IsAndTail (and_more n t) = IsNot n × IsAndTail t

  pub IsNot : Not → Type 0
  IsNot (bang n) = IsNot n
  IsNot (plain p) = IsPrimary p

  pub IsPrimary : Primary → Type 0
  IsPrimary (paren e) = IsOr e
  IsPrimary (unary op value) = is_test_unary op ≡ true
  IsPrimary (binary left op right) = IsWord left × (is_test_binary op ≡ true)
  IsPrimary (word s) = IsWord s
