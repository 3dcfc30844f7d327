-- ===== src/Zstd/Reader.antt =====
-- `zstdReader`. The decoder of entropy-coded blocks (zstd_decode.go) is a parameter: its tables, a
-- fresh one, and a step that takes the body, the window and the begin of the frame in it.
use ba.Base.{
  Chunk, read_exactly, next_byte, ℕ, zero, suc, ◌+◌, ◌*◌, ◌/◌, ◌%◌, ◌^◌, min, max, Bool, [], ◌∷◌,
  Bytes, ltb, ◌==◌, if◌then◌else◌, length, bytes_eq, Result, ok, err, ◌>>=◌,
}
use ba.Xxh64.{little_endian}
use ba.Zstd.Writer.{
  ZstdError, end_of_input, unexpected_eof, not_a_frame, invalid_header, unsupported_window,
  dictionary, out_of_fuel, frame_magic,
}

-- `io.ReadFull` behind `unexpectedEOF`.
unfoldable pub read_full : ℕ → Bytes → Result ZstdError Chunk
read_full n input = read_exactly unexpected_eof n input

-- `io.ReadFull` of the magic number, which tells an input that is at its end.
unfoldable pub read_magic : Bytes → Result ZstdError Chunk
unfolding read_full
read_magic [] = err end_of_input
read_magic (c ∷ s) = read_full 4 (c ∷ s)

unfoldable pub read_byte : Bytes → Result ZstdError (ℕ × Bytes)
read_byte input = next_byte unexpected_eof input

-- The frames to skip before one to decode, and the magic number of that.
unfoldable pub skip_frames : ℕ → Bytes → Result ZstdError Bytes
unfolding read_magic read_full
skip_frames zero input = err out_of_fuel
skip_frames (suc fuel) input = do
  (magic, rest) ← read_magic input
  let skipped =
      read_full 4 rest >>= λ p. read_full (little_endian p.0) p.1 >>= λ q. skip_frames fuel q.1
  if little_endian magic / 16 == 0x184d2a5
      then skipped
      else if bytes_eq magic frame_magic
      then ok rest
      else err not_a_frame

-- The window descriptor, which a single segment lacks.
unfoldable pub read_window : Bool → Bytes → Result ZstdError (ℕ × Bytes)
unfolding read_byte
read_window single input =
    let coded = read_byte input >>= λ p.
    let exponent = p.0 / 8 + 10 in
    let base = 2 ^ exponent in
    if ltb 40 exponent then err unsupported_window else ok (base + base / 8 * (p.0 % 8), p.1) in
    if single then ok (0, input) else coded

unfoldable pub dictionary_size : ℕ → ℕ
dictionary_size code = if code == 0 then 0 else if code == 1 then 1 else if code == 2 then 2 else 4

unfoldable pub read_dictionary : ℕ → Bytes → Result ZstdError Bytes
unfolding read_full dictionary_size
read_dictionary code input = read_full (dictionary_size code) input >>= λ p.
    if little_endian p.0 == 0 then ok p.1 else err dictionary

unfoldable pub content_size_size : ℕ → Bool → ℕ
content_size_size code single =
    if code == 0
    then if single then 1 else 0
    else if code == 1
    then 2
    else if code == 2
    then 4
    else 8

unfoldable pub read_content_size : ℕ → Bool → Bytes → Result ZstdError (ℕ × Bytes)
unfolding read_full content_size_size
read_content_size code single input =
    let size = content_size_size code single in
    read_full size input >>= λ p.
    ok ((if size == 2 then little_endian p.0 + 256 else little_endian p.0), p.1)

pub record Header : Type 0 where
  pub checksum : Bool
  pub win_size : ℕ
  pub rest : Bytes

-- The window that a frame needs, 1 KiB at least.
abbrev pub window_size : Bool → ℕ → ℕ → ℕ
window_size single coded content = max (if single then min content (2 ^ 31) else coded) 1024

unfoldable pub read_descriptor : Bytes → Result ZstdError Header
unfolding read_byte read_window read_dictionary read_content_size
read_descriptor input = do
  (descriptor, after) ← read_byte input
  let single = descriptor / 32 % 2 == 1
  let fields = do
    (coded, after') ← read_window single after
    after'' ← read_dictionary (descriptor % 4) after'
    (content, rest) ← read_content_size (descriptor / 64) single after''
    ok (record {
      checksum = descriptor / 4 % 2 == 1;
      win_size = window_size single coded content;
      rest = rest;
    })
  if descriptor / 8 % 2 == 1 then err invalid_header else fields

unfoldable pub read_header : Bytes → Result ZstdError Header
unfolding skip_frames read_descriptor
read_header input = skip_frames (length input + 1) input >>= read_descriptor
