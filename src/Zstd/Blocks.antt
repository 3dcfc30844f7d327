-- ===== src/Zstd/Blocks.antt =====
-- The blocks of a frame, `Read` of `zstdReader`, and a caller that reads to the end.
use ba.Base.{
  ℕ, zero, suc, ◌+◌, ◌-◌, ◌/◌, ◌%◌, ◌^◌, min, Bool, true, false, ◌||◌, [], ◌∷◌, ◌++◌, Bytes, leb,
  ltb, ◌==◌, if◌then◌else◌, length, take, drop, replicate, Result, ok, err, ◌>>=◌,
}
use ba.Xxh64
use ba.Xxh64.{Hash, new_hash, little_endian, sum64}
use ba.Zstd.Writer.{
  ZstdError, end_of_input, bad_data, invalid_block, mismatch, out_of_fuel, raw_block_size,
}
use ba.Zstd.Reader.{read_full, read_byte, Header, read_header}

-- `zstdBlockDecoder`: its state, a fresh one, and `decodeBlock`, which gives the longer window.
pub record Decoder : Type 1 where
  pub State : Type 0
  pub fresh : State
  pub decode : State → Bytes → Bytes → ℕ → Result ZstdError (State × Bytes)

module _ (c : Decoder) where
  open c use {State, fresh, decode}

  pub record Reader : Type 0 where
    pub input : Bytes
    pub dec : State
    pub window : Bytes
    pub frame_at : ℕ
    pub consumed : ℕ
    pub win_size : ℕ
    pub checksum : Bool
    pub digest : Hash
    pub finished : Bool

  -- `readFrameHeader`, for the fields of the reader that it sets.
  unfoldable pub open_frame : Reader → Header → Reader
  open_frame r h = record r {
    input = h.rest;
    dec = fresh;
    frame_at = length r.window;
    win_size = h.win_size;
    checksum = h.checksum;
    digest = new_hash;
  }

  unfoldable pub new_reader : Bytes → Result ZstdError Reader
  unfolding open_frame
  new_reader input = read_header input >>= λ h. ok (
      open_frame
        (record {
          input = input;
          dec = fresh;
          window = [];
          frame_at = 0;
          consumed = 0;
          win_size = 0;
          checksum = false;
          digest = new_hash;
          finished = false;
        })
        h)

  -- Before the next block the window loses what no match can reach, a mebibyte at least at a time.
  unfoldable pub compact : Reader → Reader
  compact r =
      let dropped = min (length r.window - r.win_size) r.consumed in
      if leb (length r.window) r.win_size || ltb dropped 1048576 then r else record r {
        window = drop dropped r.window;
        consumed = r.consumed - dropped;
        frame_at = r.frame_at - dropped;
      }

  -- A block's bytes added to the window.
  abbrev pub grown : Reader → Bytes → Bytes → Reader
  grown r rest s = record r { input = rest; window = r.window ++ s }

  unfoldable pub read_body : Reader → ℕ → ℕ → Bytes → Result ZstdError Reader
  unfolding read_full read_byte
  read_body r type size rest =
      if type == 0
      then (read_full size rest >>= λ p. ok (grown r p.1 p.0))
      else if type == 1
      then (read_byte rest >>= λ p. ok (grown r p.1 (replicate size p.0)))
      else if type == 2
      then (read_full size rest >>= λ p. decode r.dec p.0 r.window r.frame_at >>= λ q.
          ok (record r { input = p.1; dec = q.0; window = q.1 }))
      else err invalid_block

  -- The next frame, or the end: a header that finds nothing more behind frames to skip.
  unfoldable pub next_frame : Reader → Result ZstdError Header → Result ZstdError Reader
  unfolding open_frame
  next_frame r (ok h) = ok (open_frame r h)
  next_frame r (err end_of_input) = ok (record r { finished = true })
  next_frame r (err e) = err e

  abbrev pub at_end : Bytes → Bool
  at_end [] = true
  at_end (b ∷ s) = false

  unfoldable pub go_on : Reader → Result ZstdError Reader
  unfolding next_frame
  go_on r =
      if at_end r.input
      then ok (record r { finished = true })
      else next_frame r (read_header r.input)

  unfoldable pub finish_frame : Reader → Result ZstdError Reader
  unfolding go_on read_full
  finish_frame r =
      let checked = read_full 4 r.input >>= λ p.
      if little_endian p.0 == sum64 r.digest % 2 ^ 32
      then go_on (record r { input = p.1 })
      else err mismatch in
      if r.checksum then checked else go_on r

  -- The digest takes what the block has added.
  unfoldable pub end_block : ℕ → Bool → Reader → Result ZstdError Reader
  unfolding finish_frame
  end_block produced last r =
      let r' = record r { digest = Xxh64.write r.digest (drop produced r.window) } in
      if last then finish_frame r' else ok r'

  unfoldable pub read_block : Reader → Result ZstdError Reader
  unfolding read_full read_body end_block
  read_block r = read_full 3 r.input >>= λ p.
      let value = little_endian p.0 in
      if ltb raw_block_size (value / 8)
      then err bad_data
      else (read_body r (value / 2 % 4) (value / 8) p.1 >>= λ r'.
          end_block (length r.window) (value % 2 == 1) r')

  -- What a caller gets who reads `n` bytes at a time until the end. Each round is a round of the loop
  -- in `Read` or a call of it that returns bytes.
  unfoldable pub read_all : ℕ → ℕ → Reader → Result ZstdError Bytes
  unfolding compact read_block
  read_all zero n r = err out_of_fuel
  read_all (suc fuel) n r = elim (r.consumed == length r.window) [
    | false ↦
        let out = take n (drop r.consumed r.window) in
        read_all fuel n (record r { consumed = r.consumed + length out }) >>= λ more.
        ok (out ++ more)
    | true ↦ elim r.finished [
      | true ↦ ok []
      | false ↦ read_block (compact r) >>= λ r'. read_all fuel n r'
    ]
  ]
