-- ===== src/Xz/Reader.antt =====
-- `xzReader`. The reader of a block shares the input with it: a block that is open holds the input,
-- and hands it back at its end.
use ba.Base.{
  ℕ, zero, suc, ◌+◌, Bool, true, false, [], ◌∷◌, ◌++◌, Option, none, some, Bytes, ltb, ◌==◌,
  if◌then◌else◌, length, take, drop, next_byte, Result, ok, err, ◌>>=◌,
}
use ba.Xz.Check.{
  XzError, unexpected_eof, check_failed, out_of_fuel, Checker, reset_checker, add_checked, verify,
}
use ba.Xz.Header.{read_full, read_stream_header, read_block_header, read_stream_end, skip_padding}
use ba.Xz.Chunks.{Lzma, ChunkReader, new_chunk_reader, compact, read_chunk}

module _ (c : Lzma) (sha256 : Bytes → Bytes) where
  pub record Reader : Type 0 where
    pub input : Bytes
    pub check : Checker
    pub block : Option (ChunkReader c)
    pub finished : Bool

  unfoldable pub new_reader : Bytes → Result XzError Reader
  unfolding read_stream_header
  new_reader input = read_stream_header input >>= λ p.
      ok (record { input = p.1; check = p.0; block = none; finished = false })

  -- `readStreamHeader` for a stream behind the first.
  unfoldable pub next_stream : Reader → Result XzError Reader
  unfolding read_stream_header
  next_stream r = read_stream_header r.input >>= λ p. ok (record r { input = p.1; check = p.0 })

  -- The next stream, or the end.
  unfoldable pub after_stream : Reader → Bytes → Result XzError Reader
  unfolding next_stream
  after_stream r [] = ok (record r { input = []; finished = true })
  after_stream r (b ∷ s) = next_stream (record r { input = b ∷ s })

  unfoldable pub finish_stream : Reader → Result XzError Reader
  unfolding read_stream_end after_stream
  finish_stream r = read_stream_end r.input >>= λ rest. after_stream r rest

  unfoldable pub open_block : ℕ → Reader → Result XzError Reader
  unfolding read_block_header new_chunk_reader reset_checker
  open_block first r = read_block_header first r.input >>= λ p. ok (record r {
    input = p.1;
    block = some (new_chunk_reader c p.1 p.0);
    check = reset_checker r.check;
  })

  unfoldable pub start_block : Reader → Result XzError Reader
  unfolding finish_stream open_block
  start_block r = next_byte unexpected_eof r.input >>= λ p.
      if p.0 == 0
      then finish_stream (record r { input = p.1 })
      else open_block p.0 (record r { input = p.1 })

  unfoldable pub finish_block : Reader → ChunkReader c → Result XzError Reader
  unfolding skip_padding read_full verify
  finish_block r b = skip_padding b.compressed b.input >>= λ rest.
      let plain = ok (record r { input = rest; block = none }) in
      let checked = read_full r.check.size rest >>= λ p.
      if verify sha256 r.check p.0
      then ok (record r { input = p.1; block = none })
      else err check_failed in
      if ltb 0 r.check.size then checked else plain

  -- What a round of the loop in `Read` comes to: another round, bytes for the caller, or the end.
  pub data Round : Type 0 where
    again : Reader → Round
    gives : Bytes → Reader → Round
    ended : Round

  unfoldable pub block_round : ℕ → Reader → ChunkReader c → Result XzError Round
  unfolding compact read_chunk finish_block add_checked
  block_round n r b =
      let out = take n (drop b.consumed b.buf) in
      let b' = record b { consumed = b.consumed + length out } in
      let closed = finish_block r b >>= λ r'. ok (again r') in
      let filled =
        read_chunk c (compact c b) >>= λ b''. ok (again (record r { block = some b'' })) in
      if b.consumed == length b.buf
      then if b.finished then closed else filled
      else if length out == 0
      then ok (again (record r { block = some b' }))
      else ok (gives out (record r { block = some b'; check = add_checked r.check out }))

  unfoldable pub round : ℕ → Reader → Option (ChunkReader c) → Result XzError Round
  unfolding start_block block_round
  round n r none = start_block r >>= λ r'. ok (again r')
  round n r (some b) = block_round n r b

  unfoldable pub read_round : ℕ → Reader → Result XzError Round
  unfolding round
  read_round n r = if r.finished then ok ended else round n r r.block

  -- `Read` with a buffer of `n` bytes: the bytes and the reader, or none at the end.
  unfoldable pub read : ℕ → ℕ → Reader → Result XzError (Option (Bytes × Reader))
  unfolding read_round
  read zero n r = err out_of_fuel
  read (suc fuel) n r = read_round n r >>= λ round. elim round [
    | again r' ↦ read fuel n r'
    | gives out r' ↦ ok (some (out, r'))
    | ended ↦ ok none
  ]

  -- What a caller gets who reads `n` bytes at a time until the end, by the rounds of the loop.
  unfoldable pub read_all : ℕ → ℕ → Reader → Result XzError Bytes
  unfolding read_round
  read_all zero n r = err out_of_fuel
  read_all (suc fuel) n r = read_round n r >>= λ round. elim round [
    | again r' ↦ read_all fuel n r'
    | gives out r' ↦ read_all fuel n r' >>= λ more. ok (out ++ more)
    | ended ↦ ok []
  ]
