-- ===== src/Xz/Chunks.antt =====
-- `lzma2Reader` of lzma.go. The decoder of compressed chunks (lzmaDecoder and its range coder) is a
-- parameter: its states and what the reader does with them.
use ba.Base.{
  ℕ, ◌+◌, ◌-◌, ◌*◌, ◌/◌, ◌%◌, min, max, Bool, true, false, not, ◌&&◌, ◌||◌, [], ◌∷◌, ◌++◌, Bytes,
  ltb, leb, ◌==◌, if◌then◌else◌, length, drop, next_byte, Result, ok, err, ◌>>=◌,
}
use ba.Xz.Check.{XzError, unexpected_eof, invalid_control, no_dictionary, no_properties, bad_data}
use ba.Xz.Header.{read_full}

-- What decoding a chunk gives: the decoder, the longer output, whether an end marker was met, and
-- whether the range coder has finished at the end of its data.
pub record Decoded (State : Type 0) : Type 0 where
  pub state : State
  pub output : Bytes
  pub marker : Bool
  pub exact : Bool

pub record Lzma : Type 1 where
  pub State : Type 0
  pub fresh : State
  pub reset_state : State → State
  pub at_start : State → State
  pub advance : State → ℕ → State
  pub set_props : State → ℕ → Result XzError State
  pub decode : State → Bytes → Bytes → ℕ → Result XzError (Decoded State)

abbrev pub big_endian : Bytes → ℕ
big_endian (hi ∷ lo ∷ s) = hi * 256 + lo
big_endian s = 0

module _ (c : Lzma) where
  open c use {State, fresh, reset_state, at_start, advance, set_props, decode}

  pub record ChunkReader : Type 0 where
    pub input : Bytes
    pub dec : State
    pub buf : Bytes
    pub consumed : ℕ
    pub dict_size : ℕ
    pub saw_props : Bool
    pub saw_dict_init : Bool
    pub finished : Bool
    pub compressed : ℕ

  unfoldable pub new_chunk_reader : Bytes → ℕ → ChunkReader
  new_chunk_reader input size = record {
    input = input;
    dec = fresh;
    buf = [];
    consumed = 0;
    dict_size = max size 4096;
    saw_props = false;
    saw_dict_init = false;
    finished = false;
    compressed = 0;
  }

  unfoldable pub compact : ChunkReader → ChunkReader
  compact r =
      let dropped = min (length r.buf - r.dict_size) r.consumed in
      if leb (length r.buf) r.dict_size || ltb dropped 1048576
      then r
      else record r { buf = drop dropped r.buf; consumed = r.consumed - dropped }

  -- `readBE16`
  unfoldable pub read_be16 : ChunkReader → Result XzError (ℕ × ChunkReader)
  unfolding read_full
  read_be16 r = read_full 2 r.input >>= λ p.
      ok (big_endian p.0, record r { input = p.1; compressed = r.compressed + 2 })

  unfoldable pub reset_dictionary : ChunkReader → ChunkReader
  reset_dictionary r = record r { dec = at_start r.dec; saw_dict_init = true }

  -- The stored bytes, behind the length.
  unfoldable pub stored_bytes : ℕ → ChunkReader → Result XzError ChunkReader
  unfolding read_full
  stored_bytes size r = read_full (size + 1) r.input >>= λ p. ok (record r {
    input = p.1;
    buf = r.buf ++ p.0;
    compressed = r.compressed + (size + 1);
    dec = reset_state (advance r.dec (size + 1));
  })

  unfoldable pub read_stored_chunk : Bool → ChunkReader → Result XzError ChunkReader
  unfolding reset_dictionary read_be16 stored_bytes
  read_stored_chunk reset r =
      let r' = if reset then reset_dictionary r else r in
      let body = read_be16 r' >>= λ p. stored_bytes p.0 p.1 in
      if r'.saw_dict_init then body else err no_dictionary

  unfoldable pub read_props : ChunkReader → Result XzError ChunkReader
  read_props r = next_byte unexpected_eof r.input >>= λ p. set_props r.dec p.0 >>= λ dec.
      ok (record r {
        input = p.1;
        compressed = r.compressed + 1;
        dec = reset_state dec;
        saw_props = true;
      })

  -- What the control byte of a compressed chunk has the decoder forget.
  unfoldable pub prepare : ℕ → ChunkReader → Result XzError ChunkReader
  unfolding read_props reset_dictionary
  prepare action r =
      if action == 0
      then ok r
      else if action == 1
      then ok (record r { dec = reset_state r.dec })
      else if action == 2
      then read_props r
      else (read_props r >>= λ r'. ok (reset_dictionary r'))

  -- The end marker may only close a chunk that is otherwise complete.
  unfoldable pub take_decoded : ChunkReader → ℕ → Decoded State → Result XzError ChunkReader
  take_decoded r size d =
      if d.marker && not (length d.output - length r.buf == size)
      then err bad_data
      else if d.exact
      then ok (record r { dec = d.state; buf = d.output })
      else err bad_data

  unfoldable pub decode_packed : ℕ → ℕ → ChunkReader → Result XzError ChunkReader
  unfolding read_full take_decoded
  decode_packed unpacked packed r = do
    (body, rest) ← read_full packed r.input
    let r' = record r { input = rest; compressed = r.compressed + packed }
    d ← decode r'.dec body r'.buf unpacked
    take_decoded r' unpacked d

  unfoldable pub read_compressed_chunk : ℕ → ChunkReader → Result XzError ChunkReader
  unfolding read_be16 prepare decode_packed
  read_compressed_chunk control r = do
    (high, r1) ← read_be16 r
    (packed, r2) ← read_be16 r1
    let unpacked = control % 32 * 65536 + high + 1
    let decoded = prepare (control / 32 % 4) r2 >>= λ r3.
        if not r3.saw_props
        then err no_properties
        else if not r3.saw_dict_init
        then err no_dictionary
        else decode_packed unpacked (packed + 1) r3
    if ltb 2097152 unpacked then err bad_data else decoded

  -- `readChunk`, behind its control byte.
  unfoldable pub dispatch : ℕ → ChunkReader → Result XzError ChunkReader
  unfolding read_stored_chunk read_compressed_chunk
  dispatch control r =
      if control == 0
      then ok (record r { finished = true })
      else if (control == 1) || (control == 2)
      then read_stored_chunk (control == 1) r
      else if leb 128 control
      then read_compressed_chunk control r
      else err invalid_control

  unfoldable pub read_chunk : ChunkReader → Result XzError ChunkReader
  unfolding dispatch
  read_chunk r = next_byte unexpected_eof r.input >>= λ p.
      dispatch p.0 (record r { input = p.1; compressed = r.compressed + 1 })
