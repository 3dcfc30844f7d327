-- ===== src/Xz/ReadHeaders.antt =====
-- What `xzReader` makes of the headers, the index and the footer of `xzWriter`.
use ba.Base.{
  ℕ, zero, suc, ◌+◌, ◌-◌, ◌%◌, ◌^◌, ◌<◌, ◌≡◌, refl, sym, ap, ap₂, ◌∙◌, [], ◌∷◌, ◌++◌, append_assoc,
  Bytes, arith, length, length-append, take, drop, replicate, get_or, read_exactly-append, ok,
  bind_ok,
}
use ba.Base.Int64.{add64, add64-eq-add}
use ba.Xxh64.{little_endian}
use ba.Xz.Check.{unexpected_eof, put_little, crc32, Checker}
use ba.Xz.Vli.{vli, read_vli}
use ba.Xz.Vli.Laws.{read_vli-vli}
use ba.Xz.Writer.{stream_start, padding, index_records, index_bytes, footer, stream_end}
use ba.Xz.Header.{
  read_full, read_stream_header, read_block_header, skip_padding, skip_records, skip_index,
  skip_stream_padding, read_stream_end,
}

length-replicate : (n : ℕ) (b : ℕ) → length (replicate n b) ≡ n
length-replicate zero b = refl
length-replicate (suc n) b = ap suc (length-replicate n b)

pub skip_padding-replicate :
    (size n : ℕ) (rest : Bytes)
    → padding size ≡ n
    → skip_padding size (replicate n 0 ++ rest) ≡ ok rest
unfolding skip_padding
skip_padding-replicate size n rest e =
    let k = e ∙ sym (length-replicate n 0) in
    rw (k, read_exactly-append unexpected_eof (replicate n 0) rest) refl

skip_records-pair :
    (fuel consumed u n : ℕ) (rest : Bytes)
    → u < 2 ^ 63
    → n < 2 ^ 63
    → skip_records (suc fuel) 1 consumed (vli u ++ (vli n ++ rest))
      ≡ ok (consumed + length (vli u) + length (vli n), rest)
unfolding skip_records
skip_records-pair fuel consumed u n rest hu hn =
    rw (read_vli-vli u (vli n ++ rest) hu, read_vli-vli n rest hn) refl

pub read_full-append :
    (n : ℕ) (s rest : Bytes) → length s ≡ n → read_full n (s ++ rest) ≡ ok (s, rest)
unfolding read_full
read_full-append n s rest e = rw (← e) (read_exactly-append unexpected_eof s rest)

read_vli_one : (s : Bytes) → read_vli (1 ∷ s) ≡ ok (1, 1, s)
unfolding read_vli
read_vli_one s = refl

-- The index behind its first byte, with its checksum.
skip_index-index_bytes :
    (u n : ℕ) (sum rest : Bytes)
    → u < 2 ^ 63
    → n < 2 ^ 63
    → length sum ≡ 4
    → skip_index (
        1 ∷ vli u
        ++ (vli n ++ (replicate (padding (length (index_records u n))) 0 ++ (sum ++ rest))))
      ≡ ok rest
unfolding skip_index index_records
skip_index-index_bytes u n sum rest hu hn four =
    let count : ℕ = 2 + length (vli u) + length (vli n) in
    let size : padding count ≡ padding (length (index_records u n)) =
      ap padding (omega (arith, length-append (vli u) (vli n))) in
    let pad = replicate (padding (length (index_records u n))) 0 ++ (sum ++ rest) in
    let input = 1 ∷ vli u ++ (vli n ++ pad) in
    bind_ok (read_vli input) _ _ (ok rest) (read_vli_one (vli u ++ (vli n ++ pad))) (
      bind_ok (skip_records (length input) 1 2 (vli u ++ (vli n ++ pad))) (count, pad) _ (ok rest)
        (skip_records-pair (length (vli u ++ (vli n ++ pad))) 2 u n pad hu hn)
        (bind_ok (skip_padding count pad) (sum ++ rest) _ (ok rest)
          (skip_padding-replicate count (padding (length (index_records u n))) (sum ++ rest) size)
          (bind_ok (read_full 4 (sum ++ rest)) (sum, rest) _ (ok rest)
            (read_full-append 4 sum rest four) refl)))

length-footer : (index : Bytes) → length (footer index) ≡ 12
unfolding footer put_little
length-footer index = refl

footer_ends :
    (index : Bytes) → (get_or (footer index) 10 0 ≡ b'Y') × (get_or (footer index) 11 0 ≡ b'Z')
unfolding footer put_little
footer_ends index = (refl, refl)

index_shape :
    (u n : ℕ) (t : Bytes)
    → drop 1 (index_bytes u n) ++ t
      ≡ 1 ∷ vli u ++ (vli n ++ (replicate (padding (length (index_records u n))) 0 ++ t))
unfolding index_bytes index_records
index_shape u n t =
    let pad = replicate (padding (length (index_records u n))) 0 in
    ap (λ s. 1 ∷ s) (append_assoc (vli u ++ vli n) pad t ∙ append_assoc (vli u) (vli n) (pad ++ t))

-- The end of a stream behind the mark of the index.
read_stream_end-index :
    (u n : ℕ) (rest : Bytes)
    → u < 2 ^ 63
    → n < 2 ^ 63
    → read_stream_end (
        drop 1 (index_bytes u n)
        ++ (put_little 4 (crc32 (index_bytes u n)) ++ (footer (index_bytes u n) ++ rest)))
      ≡ ok (skip_stream_padding rest)
unfolding read_stream_end put_little
read_stream_end-index u n rest hu hn =
    let index = index_bytes u n in
    let sum = put_little 4 (crc32 index) in
    let behind = footer index ++ rest in
    let (y, z) = footer_ends index in
    bind_ok (skip_index (drop 1 index ++ (sum ++ behind))) behind _ (ok (skip_stream_padding rest))
      (ap skip_index (index_shape u n (sum ++ behind))
        ∙ skip_index-index_bytes u n sum behind hu hn refl)
      (bind_ok (read_full 12 behind) (footer index, rest) _ (ok (skip_stream_padding rest))
        (read_full-append 12 (footer index) rest (length-footer index)) (rw (y, z) refl))

index_mark : (u n : ℕ) → index_bytes u n ≡ 0 ∷ drop 1 (index_bytes u n)
unfolding index_bytes index_records
index_mark u n = refl

unpadded : (compressed : ℕ) → compressed < 2 ^ 62 → add64 12 (add64 compressed 1) ≡ compressed + 13
unpadded compressed h =
    ap (add64 12) (add64-eq-add compressed 1 (omega arith))
    ∙ (add64-eq-add 12 (compressed + 1) (omega arith) ∙ omega arith)

padding_header : (size : ℕ) → padding (size + 13) ≡ padding (size + 1)
unfolding padding
padding_header size = ap (λ k. (4 - k) % 4) (omega arith)

-- What follows the mark of the index.
abbrev pub after_mark : ℕ → ℕ → Bytes
after_mark u n =
    drop 1 (index_bytes u n) ++ (put_little 4 (crc32 (index_bytes u n)) ++ footer (index_bytes u n))

-- Behind the chunks: the padding of the block, the mark of the index, and the rest of the end.
pub stream_end_shape :
    (compressed n : ℕ) (rest : Bytes)
    → compressed < 2 ^ 62
    → stream_end compressed n ++ rest
      ≡ 0 ∷ replicate (padding (compressed + 1)) 0 ++ (0 ∷ after_mark (compressed + 13) n ++ rest)
unfolding stream_end
stream_end_shape compressed n rest h =
    ap
      (λ u.
        0
          ∷ (replicate (padding u) 0
              ++ (index_bytes u n
                  ++ (put_little 4 (crc32 (index_bytes u n)) ++ footer (index_bytes u n))))
        ++ rest)
      (unpadded compressed h)
    ∙ ap (λ s. 0 ∷ s)
        (append_assoc (replicate (padding (compressed + 13)) 0) _ rest
          ∙ ap₂ (λ k s. replicate k 0 ++ s) (padding_header compressed)
              (ap
                (λ s.
                  (s
                    ++ (put_little 4 (crc32 (index_bytes (compressed + 13) n))
                        ++ footer (index_bytes (compressed + 13) n)))
                  ++ rest)
                (index_mark (compressed + 13) n)))

pub read_stream_end-after_mark :
    (u n : ℕ) (rest : Bytes)
    → u < 2 ^ 63
    → n < 2 ^ 63
    → read_stream_end (after_mark u n ++ rest) ≡ ok (skip_stream_padding rest)
read_stream_end-after_mark u n rest hu hn =
    let index = drop 1 (index_bytes u n) in
    let sum = put_little 4 (crc32 (index_bytes u n)) in
    let foot = footer (index_bytes u n) in
    ap read_stream_end
      (append_assoc index (sum ++ foot) rest ∙ ap (λ s. index ++ s) (append_assoc sum foot rest))
    ∙ read_stream_end-index u n rest hu hn

-- The headers of `xzWriter`: a stream without a check, and a block with the smallest dictionary.
abbrev pub no_check : Checker
no_check = record { kind = 0; size = 0; crc32_sum = 0; crc64_sum = 0; hashed = [] }

abbrev pub block_start : Bytes
block_start = drop 12 stream_start

pub read_stream_header-stream_start :
    (s : Bytes) → read_stream_header (stream_start ++ s) ≡ ok (no_check, block_start ++ s)
unfolding read_stream_header stream_start crc32 put_little little_endian
read_stream_header-stream_start s =
    bind_ok (read_full 12 (stream_start ++ s)) (take 12 stream_start, block_start ++ s) _
      (ok (no_check, block_start ++ s))
      (read_full-append 12 (take 12 stream_start) (block_start ++ s) refl) refl

-- Behind the first byte.
pub read_block_header-block_start :
    (s : Bytes) → (size : ℕ) × (read_block_header 2 (drop 1 block_start ++ s) ≡ ok (size, s))
unfolding read_block_header stream_start crc32 put_little little_endian
read_block_header-block_start s = (
  _,
  bind_ok (read_full 11 (drop 1 block_start ++ s)) (drop 1 block_start, s) _ (ok (4096, s))
      (read_full-append 11 (drop 1 block_start) s refl) refl,
)
