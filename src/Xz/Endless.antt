-- ===== src/Xz/Endless.antt =====
-- A `Read` of `xzReader` with an empty buffer.
use ba.Base.{
  ℕ, zero, suc, ◌+◌, ◌<◌, ◌≡◌, refl, false, some, Bytes, arith, ◌==◌, if_false, length, err,
  bind_ok,
}
use ba.Xz.Check.{out_of_fuel}
use ba.Xz.Chunks.{Lzma, ChunkReader}
use ba.Xz.Reader.{Reader, again, read, read_round, round, block_round}

-- `Read` with an empty buffer, on a reader in a block whose bytes are not all delivered, does not
-- return: no number of rounds of its loop is enough.
pub read-endless :
    (c : Lzma) (sha256 : Bytes → Bytes) (r : Reader c sha256) (b : ChunkReader c) (fuel : ℕ)
    → r.finished ≡ false
    → r.block ≡ some b
    → b.consumed < length b.buf
    → read c sha256 fuel 0 r ≡ err out_of_fuel
unfolding read read_round round block_round
read-endless c sha256 r b zero go inside more = refl
read-endless c sha256 r b (suc fuel) go inside more =
    let differ : (b.consumed == length b.buf) ≡ false = ground arith in
    let b' = record b { consumed = b.consumed + 0 } in
    let r' = record r { block = some b' } in
    bind_ok (read_round c sha256 0 r) (again r') _ (err out_of_fuel)
      (if_false r.finished _ _ _ go
        (rw inside (if_false (b.consumed == length b.buf) _ _ _ differ refl)))
      (read-endless c sha256 r' b' fuel go refl (omega arith))
