-- ===== src/Tail.antt =====
-- tail(1), tail.go: the last lines and bytes of an input, or all from a place on.
pub mod Lines
pub mod Chunks
pub mod Command
mod Examples
use ba.Base.{
  ℕ, zero, suc, ◌+◌, ◌-◌, ◌%◌, Bool, true, false, List, [], ◌∷◌, ◌++◌, leb, ltb, ◌==◌,
  if◌then◌else◌, length, drop, get_or, set, concat, Bytes,
}
use ba.Base.Lines.{read_lines}

-- `-n +N`: the lines from number `n` on, at line `line_no`.
unfoldable pub lines_from : ℕ → ℕ → List Bytes → Bytes
lines_from line_no n [] = []
lines_from line_no n (line ∷ lines) =
    let rest = lines_from (line_no + 1) n lines in if leb n line_no then line ++ rest else rest

pub record Ring : Type 0 where
  pub ring : List Bytes
  pub head : ℕ
  pub full : Bool

abbrev pub empty : Ring
empty = record { ring = []; head = 0; full = false }

-- The body of the loop, for a line that is not empty; `n` is positive.
unfoldable pub keep : ℕ → Ring → Bytes → Ring
keep n r line =
    if r.full
    then record r { ring = set r.ring r.head line; head = (r.head + 1) % length r.ring }
    else if length (r.ring ++ line ∷ []) == n
    then record { ring = r.ring ++ line ∷ []; head = 0; full = true }
    else record r { ring = r.ring ++ line ∷ [] }

unfoldable pub keep_all : ℕ → Ring → List Bytes → Ring
unfolding keep
keep_all n r [] = r
keep_all n r (line ∷ lines) = keep_all n (keep n r line) lines

-- `for k := 0; k < size; k++`, by the rounds left
unfoldable pub write_ring : ℕ → ℕ → Ring → Bytes
write_ring zero k r = []
write_ring (suc rounds) k r =
    get_or r.ring ((r.head + k) % length r.ring) [] ++ write_ring rounds (k + 1) r

-- `emitLastLines`, of an input that ends without a read error.
unfoldable pub emit_last_lines : ℕ → Bool → Bytes → Bytes
unfolding lines_from keep_all write_ring
emit_last_lines n from_start s =
    let r = keep_all n empty (read_lines s) in
    if from_start
    then lines_from 1 n (read_lines s)
    else if leb n 0
    then []
    else write_ring (length r.ring) 0 r

-- One round of the loop over what `Read` returns: `m` is the length of the chunk.
unfoldable pub keep_bytes : ℕ → Bytes → Bytes → Bytes
keep_bytes n buf chunk =
    let m = length chunk in
    let joined = buf ++ chunk in
    if ltb 0 m
    then if leb n m
      then drop (m - n) chunk
      else if ltb n (length joined)
      then drop (length joined - n) joined
      else joined
    else buf

unfoldable pub keep_chunks : ℕ → Bytes → List Bytes → Bytes
unfolding keep_bytes
keep_chunks n buf [] = buf
keep_chunks n buf (chunk ∷ chunks) = keep_chunks n (keep_bytes n buf chunk) chunks

-- `emitLastBytes`, of an input that arrives in chunks and ends without a read error.
unfoldable pub emit_last_bytes : ℕ → Bool → List Bytes → Bytes
unfolding keep_chunks
emit_last_bytes n from_start chunks =
    if from_start
    then drop (n - 1) (concat chunks)
    else if leb n 0
    then []
    else keep_chunks n [] chunks
