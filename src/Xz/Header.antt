-- ===== src/Xz/Header.antt =====
-- The headers and the index of an XZ stream, as `xzReader` reads them.
use ba.Base.{
  ℕ, zero, suc, ◌+◌, ◌-◌, ◌*◌, ◌/◌, ◌%◌, ◌^◌, min, Bool, not, ◌&&◌, ◌||◌, [], ◌∷◌, Bytes, ltb, ◌==◌,
  if◌then◌else◌, bytes_eq, length, take, drop, get_or, Chunk, read_exactly, next_byte, Result, ok,
  err, ◌>>=◌,
}
use ba.Xxh64.{little_endian}
use ba.Xz.Check.{
  XzError, unexpected_eof, unsupported_stream, unsupported_flags, invalid_header,
  invalid_block_header, invalid_block_flags, unsupported_chain, invalid_properties,
  unsupported_filter, invalid_dictionary, invalid_index, invalid_footer, out_of_fuel, crc32,
  Checker, new_checker,
}
use ba.Xz.Vli.{read_vli}
use ba.Xz.Writer.{stream_magic, padding}

unfoldable pub read_full : ℕ → Bytes → Result XzError Chunk
read_full n input = read_exactly unexpected_eof n input

-- The check type in a stream header.
unfoldable pub stream_check : Bytes → Result XzError ℕ
unfolding crc32
stream_check header =
    let flags = take 2 (drop 6 header) in
    if not (bytes_eq (take 6 header) stream_magic)
    then err unsupported_stream
    else if not (get_or header 6 0 == 0) || not (get_or header 7 0 / 16 == 0)
    then err unsupported_flags
    else if not (little_endian (drop 8 header) == crc32 flags)
    then err invalid_header
    else ok (get_or header 7 0 % 16)

unfoldable pub read_stream_header : Bytes → Result XzError (Checker × Bytes)
unfolding read_full stream_check new_checker
read_stream_header input = do
  (header, rest) ← read_full 12 input
  kind ← stream_check header
  check ← new_checker kind
  ok (check, rest)

-- `lzma2DictSize`
unfoldable pub dict_size : ℕ → Result XzError ℕ
dict_size encoded =
    let value = encoded % 64 in
    let size = (2 + value % 2) * 2 ^ (value / 2 + 11) in
    if not (encoded / 64 == 0) || ltb 40 value
    then err invalid_dictionary
    else if value == 40
    then ok (2 ^ 30)
    else ok (min size (2 ^ 30))

-- A size that is read and left unused, where the flags say that it is there.
unfoldable pub skip_size : Bool → Bytes → Result XzError Bytes
unfolding read_vli
skip_size there input = if there then (read_vli input >>= λ v. ok v.2) else ok input

-- The properties of an LZMA2 filter: a byte.
unfoldable pub read_properties : Bytes → Result XzError ℕ
unfolding read_vli dict_size
read_properties input = do
  (size, width, rest) ← read_vli input
  let properties = next_byte invalid_properties rest >>= λ p. dict_size p.0
  if size == 1 then properties else err invalid_properties

unfoldable pub read_filter : Bytes → Result XzError ℕ
unfolding read_vli read_properties
read_filter input = do
  (id, width, rest) ← read_vli input
  if id == 0x21 then read_properties rest else err (unsupported_filter id)

unfoldable pub parse_block_header : Bytes → Result XzError ℕ
unfolding skip_size read_filter
parse_block_header [] = err invalid_block_header
parse_block_header (size ∷ []) = err invalid_block_header
parse_block_header (size ∷ flags ∷ rest) =
    let fields = skip_size (flags / 64 % 2 == 1) rest >>= λ s.
    skip_size (flags / 128 % 2 == 1) s >>= read_filter in
    if not (flags / 4 % 16 == 0)
    then err invalid_block_flags
    else if not (flags % 4 == 0)
    then err unsupported_chain
    else fields

-- A block header behind its first byte: the size of the dictionary and the rest.
unfoldable pub read_block_header : ℕ → Bytes → Result XzError (ℕ × Bytes)
unfolding read_full crc32 parse_block_header
read_block_header first input = do
  (tail, rest) ← read_full (first * 4 + 3) input
  let body = first ∷ take (first * 4 - 1) tail
  let parsed = parse_block_header body >>= λ size. ok (size, rest)
  if little_endian (drop (first * 4 - 1) tail) == crc32 body
      then parsed
      else err invalid_block_header

-- `skipXZPadding`
unfoldable pub skip_padding : ℕ → Bytes → Result XzError Bytes
unfolding read_full
skip_padding size input = read_full (padding size) input >>= λ p. ok p.1

-- The records of the index; `consumed` counts its bytes. The fuel is a byte of input for each record,
-- which has two at least.
unfoldable pub skip_records : ℕ → ℕ → ℕ → Bytes → Result XzError (ℕ × Bytes)
skip_records fuel zero consumed input = ok (consumed, input)
skip_records zero (suc records) consumed input = err out_of_fuel
skip_records (suc fuel) (suc records) consumed input = do
  (v, width, rest) ← read_vli input
  (v', width', rest') ← read_vli rest
  skip_records fuel records (consumed + width + width') rest'

unfoldable pub skip_index : Bytes → Result XzError Bytes
skip_index input = do
  (records, width, rest) ← read_vli input
  let walked = do
    (consumed, rest') ← skip_records (length input) records (1 + width) rest
    rest'' ← skip_padding consumed rest'
    (sum, rest''') ← read_full 4 rest''
    ok rest'''
  if ltb (2 ^ 32) records then err invalid_index else walked

-- `skipStreamPadding`
unfoldable pub skip_stream_padding : Bytes → Bytes
skip_stream_padding (a ∷ b ∷ c ∷ d ∷ s) =
    if (a == 0) && ((b == 0) && ((c == 0) && (d == 0)))
    then skip_stream_padding s
    else a ∷ b ∷ c ∷ d ∷ s
skip_stream_padding s = s

-- `finishStream` up to the next stream: the index, the footer and the padding behind it.
unfoldable pub read_stream_end : Bytes → Result XzError Bytes
read_stream_end input = do
  rest ← skip_index input
  (footer, rest') ← read_full 12 rest
  if (get_or footer 10 0 == b'Y') && (get_or footer 11 0 == b'Z')
      then ok (skip_stream_padding rest')
      else err invalid_footer
