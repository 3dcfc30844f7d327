-- ===== src/TestCommand/Operators.antt =====
-- The operators of testcmd.go. What the system says of files is a parameter.
use ba.Base.{
  ℕ, ◌+◌, Bool, true, false, not, ◌&&◌, ◌||◌, List, [], ◌∷◌, Option, none, some, Bytes, codes, ltb,
  ◌==◌, if◌then◌else◌, bytes_eq, Result, ok, err,
}
use ba.Head.Count.{parse_int}

pub record Info : Type 0 where
  pub is_regular : Bool
  pub is_dir : Bool
  pub is_symlink : Bool
  pub is_device : Bool
  pub is_char_device : Bool
  pub is_named_pipe : Bool
  pub is_socket : Bool
  pub size : ℕ
  pub mod_time : ℕ

-- `os.Stat`, `os.Lstat`, `syscall.Access`, whether a descriptor is a terminal, and `os.SameFile`.
pub record World : Type 0 where
  pub stat : Bytes → Option Info
  pub lstat : Bytes → Option Info
  pub access : Bytes → ℕ → Bool
  pub is_terminal : ℕ → Bool
  pub same_file : Bytes → Bytes → Bool

pub data TestError : Type 0 where
  invalid_descriptor invalid_integer unexpected_operand : Bytes → TestError
  missing_operand missing_right : Bytes → TestError
  missing_paren missing_expression out_of_fuel : TestError
  unknown_unary unknown_binary : Bytes → TestError

abbrev pub one_of : List Bytes → Bytes → Bool
one_of [] op = false
one_of (w ∷ ws) op = if bytes_eq op w then true else one_of ws op

unfoldable pub is_test_unary : Bytes → Bool
is_test_unary op =
    one_of
      (codes "-n"
        ∷ codes "-z"
        ∷ codes "-e"
        ∷ codes "-f"
        ∷ codes "-d"
        ∷ codes "-L"
        ∷ codes "-h"
        ∷ codes "-r"
        ∷ codes "-w"
        ∷ codes "-x"
        ∷ codes "-s"
        ∷ codes "-b"
        ∷ codes "-c"
        ∷ codes "-p"
        ∷ codes "-S"
        ∷ codes "-t"
        ∷ [])
      op

unfoldable pub is_test_binary : Bytes → Bool
is_test_binary op =
    one_of
      (codes "="
        ∷ codes "=="
        ∷ codes "!="
        ∷ codes "<"
        ∷ codes ">"
        ∷ codes "-eq"
        ∷ codes "-ne"
        ∷ codes "-lt"
        ∷ codes "-le"
        ∷ codes "-gt"
        ∷ codes "-ge"
        ∷ codes "-nt"
        ∷ codes "-ot"
        ∷ codes "-ef"
        ∷ [])
      op

-- `strconv.Atoi(value)` and `fd < 0`
unfoldable pub test_descriptor : World → Bytes → Option (Bool × ℕ) → Result TestError Bool
test_descriptor w value none = err (invalid_descriptor value)
test_descriptor w value (some (negative, n)) =
    if negative && ltb 0 n then err (invalid_descriptor value) else ok (w.is_terminal n)

abbrev pub is_link : Option Info → Bool
is_link none = false
is_link (some info) = info.is_symlink

-- The operators that look at what `os.Stat` gives.
unfoldable pub eval_stat : Bytes → Option Info → Result TestError Bool
eval_stat op none = ok false
eval_stat op (some info) =
    if bytes_eq op (codes "-e")
    then ok true
    else if bytes_eq op (codes "-f")
    then ok info.is_regular
    else if bytes_eq op (codes "-d")
    then ok info.is_dir
    else if bytes_eq op (codes "-s")
    then ok (ltb 0 info.size)
    else if bytes_eq op (codes "-b")
    then ok (info.is_device && not info.is_char_device)
    else if bytes_eq op (codes "-c")
    then ok info.is_char_device
    else if bytes_eq op (codes "-p")
    then ok info.is_named_pipe
    else if bytes_eq op (codes "-S")
    then ok info.is_socket
    else err (unknown_unary op)

abbrev pub is_given : Bytes → Bool
is_given [] = false
is_given (c ∷ s) = true

unfoldable pub eval_test_unary : World → Bytes → Bytes → Result TestError Bool
unfolding eval_stat test_descriptor
eval_test_unary w op value =
    if bytes_eq op (codes "-n")
    then ok (is_given value)
    else if bytes_eq op (codes "-z")
    then ok (not (is_given value))
    else if bytes_eq op (codes "-t")
    then test_descriptor w value (parse_int value)
    else if bytes_eq op (codes "-L") || bytes_eq op (codes "-h")
    then ok (is_link (w.lstat value))
    else if bytes_eq op (codes "-r")
    then ok (w.access value 4)
    else if bytes_eq op (codes "-w")
    then ok (w.access value 2)
    else if bytes_eq op (codes "-x")
    then ok (w.access value 1)
    else eval_stat op (w.stat value)

-- The order of Go strings.
abbrev pub bytes_lt : Bytes → Bytes → Bool
bytes_lt xs [] = false
bytes_lt [] (y ∷ ys) = true
bytes_lt (x ∷ xs) (y ∷ ys) = if x == y then bytes_lt xs ys else ltb x y

-- The order of integers that are given by sign and magnitude.
abbrev pub int_lt : Bool × ℕ → Bool × ℕ → Bool
int_lt (false, a) (false, b) = ltb a b
int_lt (false, a) (true, b) = false
int_lt (true, a) (false, b) = ltb 0 (a + b)
int_lt (true, a) (true, b) = ltb b a

abbrev pub int_eq : Bool × ℕ → Bool × ℕ → Bool
int_eq a b = not (int_lt a b) && not (int_lt b a)

unfoldable pub compare_ints : Bytes → Bool × ℕ → Bool × ℕ → Result TestError Bool
compare_ints op a b =
    if bytes_eq op (codes "-eq")
    then ok (int_eq a b)
    else if bytes_eq op (codes "-ne")
    then ok (not (int_eq a b))
    else if bytes_eq op (codes "-lt")
    then ok (int_lt a b)
    else if bytes_eq op (codes "-le")
    then ok (not (int_lt b a))
    else if bytes_eq op (codes "-gt")
    then ok (int_lt b a)
    else if bytes_eq op (codes "-ge")
    then ok (not (int_lt a b))
    else err (unknown_binary op)

unfoldable pub eval_ints :
    Bytes → Bytes → Bytes → Option (Bool × ℕ) → Option (Bool × ℕ) → Result TestError Bool
unfolding compare_ints
eval_ints left op right none b = err (invalid_integer left)
eval_ints left op right (some a) none = err (invalid_integer right)
eval_ints left op right (some a) (some b) = compare_ints op a b

-- `-nt` and `-ot`: the first file is newer; a file that is there is newer than one that is not.
unfoldable pub is_newer : Option Info → Option Info → Bool
is_newer none b = false
is_newer (some a) none = true
is_newer (some a) (some b) = ltb b.mod_time a.mod_time

abbrev pub both_there : Option Info → Option Info → Bool
both_there (some a) (some b) = true
both_there a b = false

unfoldable pub eval_test_binary : World → Bytes → Bytes → Bytes → Result TestError Bool
unfolding eval_ints is_newer
eval_test_binary w left op right =
    if bytes_eq op (codes "=") || bytes_eq op (codes "==")
    then ok (bytes_eq left right)
    else if bytes_eq op (codes "!=")
    then ok (not (bytes_eq left right))
    else if bytes_eq op (codes "<")
    then ok (bytes_lt left right)
    else if bytes_eq op (codes ">")
    then ok (bytes_lt right left)
    else if bytes_eq op (codes "-ef")
    then ok (both_there (w.stat left) (w.stat right) && w.same_file left right)
    else if bytes_eq op (codes "-nt")
    then ok (is_newer (w.stat left) (w.stat right))
    else if bytes_eq op (codes "-ot")
    then ok (is_newer (w.stat right) (w.stat left))
    else eval_ints left op right (parse_int left) (parse_int right)
