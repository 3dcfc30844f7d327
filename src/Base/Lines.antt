-- ===== src/Base/Lines.antt =====
-- A text as the lines that `bufio.Reader.ReadString('\n')` returns one after the other, each with its
-- newline but for a last line that has none.
use mathlib.Core.Path.{◌≡◌, refl}
use mathlib.Core.Bool.{◌||◌}
use mathlib.Core.List.{List, [], ◌∷◌, map}
use Prim.Native.Nat.{ℕ}
use native.Mathlib.Omega.{arith}
use ba.Base.Tests.{if◌then◌else◌, ◌==◌}
use ba.Base.Lists.{Bytes, concat}

abbrev pub newline : ℕ
newline = 10

unfoldable pub cons_line : ℕ → List Bytes → List Bytes
cons_line c [] = (c ∷ []) ∷ []
cons_line c (line ∷ lines) = (c ∷ line) ∷ lines

unfoldable pub read_lines : Bytes → List Bytes
unfolding cons_line
read_lines [] = []
read_lines (c ∷ s) =
    let rest = read_lines s in if c == newline then (c ∷ []) ∷ rest else cons_line c rest

concat-cons_line : (c : ℕ) (lines : List Bytes) → concat (cons_line c lines) ≡ c ∷ concat lines
unfolding cons_line
concat-cons_line c [] = refl
concat-cons_line c (line ∷ lines) = refl

-- The lines make up the text.
pub concat-read_lines : (s : Bytes) → concat (read_lines s) ≡ s
unfolding read_lines
concat-read_lines [] = refl
concat-read_lines (c ∷ s) = ground (arith, concat-read_lines s, concat-cons_line c (read_lines s))

-- A line of `bufio.ScanLines`: without its newline, and without a carriage return before it.
unfoldable pub chomp : Bytes → Bytes
chomp [] = []
chomp (c ∷ []) = if (c == newline) || (c == 13) then [] else c ∷ []
chomp (c ∷ d ∷ []) =
    if d == newline then if c == 13 then [] else c ∷ [] else if d == 13 then c ∷ [] else c ∷ d ∷ []
chomp (c ∷ d ∷ e ∷ s) = c ∷ chomp (d ∷ e ∷ s)

-- What a `bufio.Scanner` returns line by line, for lines within its buffer.
unfoldable pub scan_lines : Bytes → List Bytes
unfolding read_lines chomp
scan_lines s = map chomp (read_lines s)

-- The pieces between the bytes `sep`; a piece at the end counts only if it is not empty.
unfoldable pub scan_pieces : ℕ → Bytes → List Bytes
unfolding cons_line
scan_pieces sep [] = []
scan_pieces sep (c ∷ s) =
    let rest = scan_pieces sep s in if c == sep then [] ∷ rest else cons_line c rest
