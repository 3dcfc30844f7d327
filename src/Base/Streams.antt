-- ===== src/Base/Streams.antt =====
-- Input and output of a command: what a reader delivers, and what a `bufio.Writer` has passed on.
use Prim.Native.Nat.{ℕ, ◌-◌, ◌*◌, ◌/◌}
use mathlib.Core.Path.{◌≡◌}
use mathlib.Core.Bool.{Bool, false}
use mathlib.Core.List.{[], ◌∷◌, ◌++◌}
use native.Mathlib.Omega.{arith}
use ba.Base.Tests.{if◌then◌else◌, ltb}
use ba.Base.Lists.{Bytes, length, take, drop, length-append, take-append, drop-append_left}
use ba.Base.Results.{Result, ok, err}

-- The bytes that a reader delivers before it ends, and whether it ends in an error instead of EOF.
pub record Source : Type 0 where
  pub bytes : Bytes
  pub broken : Bool

-- `bufio.NewWriter` holds 4096 bytes. `WriteByte` passes the buffer on where it finds it full, so a
-- command that returns without `Flush` leaves the last bytes, up to a full buffer, unwritten.
abbrev pub buffer_size : ℕ
buffer_size = 4096

unfoldable pub passed_on : Bytes → Bytes
passed_on out = take ((length out - 1) / buffer_size * buffer_size) out

-- What was read, and what is left.
abbrev pub Chunk : Type 0
Chunk = Bytes × Bytes

-- `io.ReadFull`, and `io.CopyN` to nowhere, where both ends of input are the error `short`.
abbrev pub read_exactly : {E : Type 0} → E → ℕ → Bytes → Result E Chunk
read_exactly short n input =
    if ltb (length input) n then err short else ok (take n input, drop n input)

-- `ReadByte`
abbrev pub next_byte : {E : Type 0} → E → Bytes → Result E (ℕ × Bytes)
next_byte short [] = err short
next_byte short (c ∷ s) = ok (c, s)

pub read_exactly-append :
    {E : Type 0} (short : E) (s rest : Bytes)
    → read_exactly short (length s) (s ++ rest) ≡ ok (s, rest)
read_exactly-append short s rest =
    let long : ltb (length (s ++ rest)) (length s) ≡ false = ground (arith, length-append s rest) in
    rw (long, take-append s rest, drop-append_left s rest)
