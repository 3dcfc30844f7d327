-- ===== src/Xz/Writer.antt =====
-- `xzWriter`: one block of stored chunks. Writing to the buffered output does not fail here; the
-- counters are 64-bit integers.
use ba.Base.{
  ℕ, zero, suc, ◌+◌, ◌-◌, ◌/◌, ◌%◌, min, Bool, true, false, [], ◌∷◌, ◌++◌, Bytes, ◌==◌,
  if◌then◌else◌, length, take, drop, replicate, Result, ok, err,
}
use ba.Base.Int64.{add64}
use ba.Xz.Check.{XzError, written_after_close, out_of_fuel, put_little, crc32}
use ba.Xz.Vli.{vli}

pub record Writer : Type 0 where
  pub output : Bytes
  pub compressed : ℕ
  pub uncompressed : ℕ
  pub closed : Bool

abbrev pub stream_magic : Bytes
stream_magic = 0xfd ∷ 0x37 ∷ 0x7a ∷ 0x58 ∷ 0x5a ∷ 0x00 ∷ []

abbrev pub stream_flags : Bytes
stream_flags = 0 ∷ 0 ∷ []

abbrev pub block_header : Bytes
block_header = 2 ∷ 0 ∷ 0x21 ∷ 1 ∷ 0 ∷ 0 ∷ 0 ∷ 0 ∷ []

-- The stream header, and the header of the block.
unfoldable pub stream_start : Bytes
stream_start =
    stream_magic
    ++ (stream_flags
        ++ (put_little 4 (crc32 stream_flags)
            ++ (block_header ++ put_little 4 (crc32 block_header))))

unfoldable pub new_writer : Writer
new_writer = record { output = stream_start; compressed = 0; uncompressed = 0; closed = false }

-- A stored chunk: its control byte, its length less one, its data.
abbrev pub chunk_bytes : ℕ → Bytes → Bytes
chunk_bytes control s = control ∷ (length s - 1) / 256 % 256 ∷ (length s - 1) % 256 ∷ s

-- Only the first chunk resets the dictionary.
unfoldable pub write_chunk : Writer → Bytes → Writer
unfolding add64
write_chunk w s = record w {
  output = w.output ++ chunk_bytes (if w.compressed == 0 then 1 else 2) s;
  compressed = add64 w.compressed (length s + 3);
  uncompressed = add64 w.uncompressed (length s);
}

abbrev pub chunk_size : ℕ
chunk_size = 65536

-- The loop of `Write`, by the rounds left.
unfoldable pub write_loop : ℕ → Writer → Bytes → Result XzError Writer
unfolding write_chunk
write_loop fuel w [] = ok w
write_loop zero w (c ∷ s) = err out_of_fuel
write_loop (suc fuel) w (c ∷ s) =
    let amount = min (length (c ∷ s)) chunk_size in
    write_loop fuel (write_chunk w (take amount (c ∷ s))) (drop amount (c ∷ s))

unfoldable pub write : Writer → Bytes → Result XzError Writer
unfolding write_loop
write w s = if w.closed then err written_after_close else write_loop (length s) w s

unfoldable pub padding : ℕ → ℕ
padding size = (4 - size % 4) % 4

unfoldable pub index_records : ℕ → ℕ → Bytes
index_records unpadded uncompressed = 0 ∷ 1 ∷ vli unpadded ++ vli uncompressed

-- The index with its padding.
unfoldable pub index_bytes : ℕ → ℕ → Bytes
unfolding index_records
index_bytes unpadded uncompressed =
    let index = index_records unpadded uncompressed in index ++ replicate (padding (length index)) 0

unfoldable pub footer : Bytes → Bytes
footer index =
    let body = put_little 4 ((length index + 4) / 4 - 1) ++ stream_flags in
    put_little 4 (crc32 body) ++ (body ++ b'Y' ∷ b'Z' ∷ [])

-- What follows the chunks: the end of the chunks, the padding of the block, the index and the footer.
unfoldable pub stream_end : ℕ → ℕ → Bytes
stream_end compressed uncompressed =
    let unpadded = add64 12 (add64 compressed 1) in
    let index = index_bytes unpadded uncompressed in
    0 ∷ replicate (padding unpadded) 0 ++ (index ++ (put_little 4 (crc32 index) ++ footer index))

unfoldable pub close : Writer → Writer
close w = if w.closed then w else record w {
  closed = true;
  output = w.output ++ stream_end w.compressed w.uncompressed;
  compressed = add64 w.compressed 1;
}
