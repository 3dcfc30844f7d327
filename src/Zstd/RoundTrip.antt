-- ===== src/Zstd/RoundTrip.antt =====
-- What `zstdWriter` writes is what `zstdReader` reads.
use ba.Base.{
  ℕ, ◌≤◌, ◌<◌, ◌≡◌, refl, ap, ◌∙◌, true, false, List, [], ◌++◌, Bytes, arith, concat, Result, ok,
  ◌>>=◌, bind_ok,
}
use ba.Xxh64.{little_endian, new_hash}
use ba.Zstd.Writer.{ZstdError, Writer, block_bytes, new_writer, close}
use ba.Zstd.Reader.{read_header, Header}
use ba.Zstd.Blocks.{Decoder, Reader, new_reader, open_frame, read_all}
use ba.Zstd.Written.{bodies, frame_start, write_all, write_all-close}
use ba.Zstd.Delivery.{IsBetween, rounds, blocks_round}

-- The header that the writer has put first: no checksum, a window of 128 KiB.
read_header-frame_start :
    (s : Bytes)
    → read_header (frame_start ++ s) ≡ ok (record { checksum = false; win_size = 131072; rest = s })
unfolding read_header little_endian
read_header-frame_start s = ground arith

new_reader-frame_start :
    (c : Decoder) (s : Bytes)
    → (r : Reader c) × (new_reader c (frame_start ++ s) ≡ ok r) × IsBetween c r s
unfolding new_reader open_frame
new_reader-frame_start c s =
    let blank : Reader c = record {
      input = frame_start ++ s;
      dec = c.fresh;
      window = [];
      frame_at = 0;
      consumed = 0;
      win_size = 0;
      checksum = false;
      digest = new_hash;
      finished = false;
    } in
    let h : Header = record { checksum = false; win_size = 131072; rest = s } in
    (
      open_frame c blank h,
      ap (λ (o : Result ZstdError Header). o >>= λ h'. ok (open_frame c blank h'))
          (read_header-frame_start s),
      (refl, refl, refl, refl),
    )

-- Whatever decoder of compressed blocks is used, and in whatever pieces data are written: the writer
-- takes the pieces and closes, and a caller that reads its output, `n` bytes at a time with `n` not 0,
-- gets in finitely many rounds the data that were written, and no error.
pub read_all-write_all :
    (c : Decoder) (n : ℕ) (pieces : List Bytes)
    → 0 < n
    → (w : Writer) × ((write_all new_writer pieces >>= close) ≡ ok w)
      × (enough : ℕ) × ((fuel : ℕ)
          → enough ≤ fuel
          → (new_reader c w.output >>= read_all c fuel n) ≡ ok (concat pieces))
read_all-write_all c n pieces pos_ =
    let (ds, last, w, written, out, fits, fit, same) = write_all-close pieces in
    let input = bodies ds ++ block_bytes last true in
    let (r, opened, between) = new_reader-frame_start c input in
    (
      w,
      written,
      rounds c ds last,
      λ fuel le.
          bind_ok (new_reader c w.output) r (read_all c fuel n) (ok (concat pieces))
            (ap (new_reader c) out ∙ opened)
            (blocks_round c n r ds last pos_ fits fit between fuel le ∙ ap ok same),
    )
