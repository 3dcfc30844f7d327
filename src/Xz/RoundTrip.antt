-- ===== src/Xz/RoundTrip.antt =====
-- What `xzWriter` writes is what `xzReader` reads, also where streams follow one another.
use ba.Base.{
  ℕ, ◌+◌, ◌^◌, ◌≤◌, ◌<◌, ◌≡◌, inl, inr, refl, sym, ap, ap₂, ◌∙◌, true, false, List, [], ◌∷◌, ◌++◌,
  append_assoc, map, none, Bytes, arith, All, length, length-append, drop, drop-append_left, concat,
  replicate, Result, ok, ◌>>=◌, bind_ok,
}
use mathlib.Core.Path.{subst}
use ba.Xz.Check.{XzError, reset_checker}
use ba.Xz.Writer.{stream_start, chunk_bytes, padding, stream_end}
use ba.Xz.Header.{read_stream_header, read_block_header, skip_stream_padding, read_stream_end}
use ba.Xz.Chunks.{Lzma, ChunkReader, new_chunk_reader, read_chunk}
use ba.Xz.Reader.{
  Reader, again, new_reader, next_stream, after_stream, finish_stream, open_block, start_block,
  read_round, round, read_all,
}
use ba.Xz.Written.{
  IsChunk, chunk_stream, measure, measure-le, stream_bytes, limit, compress, compress-stream_bytes,
}
use ba.Xz.ReadHeaders.{
  no_check, block_start, after_mark, stream_end_shape, read_stream_end-after_mark,
  read_stream_header-stream_start, read_block_header-block_start,
}
use ba.Xz.ReadChunks.{Allowed, read_chunk-IsBehind, read_chunk_end, compact_delivered}
use ba.Xz.Delivery.{
  Delivers, inside, between, delivered, again-Delivers, ended-Delivers, drain, block_round-chunk,
  block_round-end,
}

-- A stream behind its header.
abbrev body : List Bytes → Bytes
body ds = block_start ++ (chunk_stream 1 ds ++ stream_end (measure ds) (length (concat ds)))

abbrev Small : List Bytes → Type 0
Small ds = All IsChunk ds × (length (concat ds) < limit)

module _ (c : Lzma) (sha256 : Bytes → Bytes) (n : ℕ) (pos_ : 0 < n) where
  -- A reader that has delivered its chunks and stands before `input`.
  abbrev Ready : ChunkReader c → Bytes → ℕ → Type 0
  Ready b input size =
      (b.input ≡ input) × (b.consumed ≡ length b.buf) × (b.finished ≡ false) × (b.compressed ≡ size)

  -- The reader behind the end of the chunks.
  abbrev Through : ChunkReader c → Bytes → ℕ → Type 0
  Through b input size =
      (b.input ≡ input) × (b.consumed ≡ length b.buf) × (b.finished ≡ true) × (b.compressed ≡ size)

  end-Delivers :
      (i : Bytes) (b : ChunkReader c) (tail out : Bytes) (size : ℕ)
      → Ready b (0 ∷ tail) size
      → ((b' : ChunkReader c)
          → Through b' tail (size + 1)
          → Delivers c sha256 n (inside c sha256 n i b') out)
      → Delivers c sha256 n (inside c sha256 n i b) out
  end-Delivers i b tail out size (input, all_, go, taken) next =
      let (consumed, s, packed, same) = compact_delivered c b all_ in
      let b1 = record b { buf = s; consumed = consumed } in
      let b2 = record b1 { input = tail; compressed = b.compressed + 1; finished = true } in
      again-Delivers c sha256 n (inside c sha256 n i b) (inside c sha256 n i b2) out
        (block_round-chunk c sha256 n i b b2 all_ go
          (ap (read_chunk c) packed ∙ read_chunk_end c b1 tail input))
        (next b2 (refl, same, refl, omega arith))

  chunks-Delivers :
      (ds : List Bytes) (control : ℕ) (i : Bytes) (b : ChunkReader c) (tail out : Bytes) (size : ℕ)
      → All IsChunk ds
      → Allowed c control b
      → Ready b (chunk_stream control ds ++ 0 ∷ tail) size
      → ((b' : ChunkReader c)
          → Through b' tail (size + measure ds + 1)
          → Delivers c sha256 n (inside c sha256 n i b') out)
      → Delivers c sha256 n (inside c sha256 n i b) (concat ds ++ out)
  unfolding delivered
  chunks-Delivers [] control i b tail out size chunks a (input, all_, go, taken) next =
      end-Delivers i b tail out (size + 0) (input, all_, go, omega arith) next
  chunks-Delivers (d ∷ ds) control i b tail out size (chunk, chunks) a (input, all_, go, taken)
        next =
      let rest = chunk_stream 2 ds ++ 0 ∷ tail in
      let (consumed, s, packed, same) = compact_delivered c b all_ in
      let b1 = record b { buf = s; consumed = consumed } in
      let (b2, read, (input2, buf2, at2, go2, taken2, saw2)) =
        read_chunk-IsBehind c control b1 d rest a
          (input ∙ append_assoc (chunk_bytes control d) (chunk_stream 2 ds) (0 ∷ tail)) chunk in
      let long : length b2.buf ≡ length s + length d = ap length buf2 ∙ length-append s d in
      let pending : drop b2.consumed b2.buf ≡ d =
        ap₂ drop (at2 ∙ same) buf2 ∙ drop-append_left s d in
      let b3 = delivered c sha256 n b2 in
      let ih =
        chunks-Delivers ds 2 i b3 tail out (size + (length d + 3)) chunks (inr (refl, saw2))
          (input2, refl, go2 ∙ go, omega arith)
          (λ b' h. next b' (h.0, h.1, h.2, h.3 ∙ omega arith)) in
      let shown =
        drain c sha256 n (length d) i b2 (concat ds ++ out) pos_ (omega arith) (omega arith) ih in
      again-Delivers c sha256 n (inside c sha256 n i b) (inside c sha256 n i b2)
        (concat (d ∷ ds) ++ out)
        (block_round-chunk c sha256 n i b b2 all_ go (ap (read_chunk c) packed ∙ read))
        (subst (Delivers c sha256 n (inside c sha256 n i b2))
          (ap (λ t. t ++ (concat ds ++ out)) pending ∙ sym (append_assoc d (concat ds) out)) shown)

  -- Between blocks: another block, or the end of the stream.
  open_block-Delivers :
      (s out : Bytes)
      → ((size : ℕ) → Delivers c sha256 n (inside c sha256 n s (new_chunk_reader c s size)) out)
      → Delivers c sha256 n (between c sha256 n (block_start ++ s)) out
  unfolding read_round round start_block open_block reset_checker stream_start
  open_block-Delivers s out next =
      let (size, header) = read_block_header-block_start s in
      again-Delivers c sha256 n (between c sha256 n (block_start ++ s))
        (inside c sha256 n s (new_chunk_reader c s size)) out
        (bind_ok (start_block c sha256 (between c sha256 n (block_start ++ s)))
          (inside c sha256 n s (new_chunk_reader c s size)) (λ r'. ok (again r')) _
          (bind_ok (read_block_header 2 (drop 1 block_start ++ s)) (size, s) _ _ header refl) refl)
        (next size)

  -- The reader behind a stream, before `rest`.
  stream_end-Delivers :
      (u m : ℕ) (rest out : Bytes) (r : Reader c sha256)
      → u < 2 ^ 63
      → m < 2 ^ 63
      → ((s : Bytes)
          → after_stream c sha256 (between c sha256 n s) (skip_stream_padding rest) ≡ ok r)
      → Delivers c sha256 n r out
      → Delivers c sha256 n (between c sha256 n (0 ∷ after_mark u m ++ rest)) out
  unfolding read_round round start_block finish_stream
  stream_end-Delivers u m rest out r hu hm e g =
      let s = after_mark u m ++ rest in
      again-Delivers c sha256 n (between c sha256 n (0 ∷ s)) r out
        (bind_ok (start_block c sha256 (between c sha256 n (0 ∷ s))) r (λ r'. ok (again r')) _
          (bind_ok (read_stream_end s) (skip_stream_padding rest) _ _
            (read_stream_end-after_mark u m rest hu hm) (e s))
          refl)
        g

  body-Delivers :
      (ds : List Bytes) (rest out : Bytes) (r : Reader c sha256)
      → Small ds
      → ((s : Bytes)
          → after_stream c sha256 (between c sha256 n s) (skip_stream_padding rest) ≡ ok r)
      → Delivers c sha256 n r out
      → Delivers c sha256 n (between c sha256 n (body ds ++ rest)) (concat ds ++ out)
  unfolding new_chunk_reader
  body-Delivers ds rest out r (chunks, small) e g =
      let le = measure-le ds chunks in
      let m = measure ds in
      let k = length (concat ds) in
      let behind = 0 ∷ after_mark (m + 13) k ++ rest in
      let tail = replicate (padding (m + 1)) 0 ++ behind in
      let s = chunk_stream 1 ds ++ (0 ∷ tail) in
      let shape : body ds ++ rest ≡ block_start ++ s =
        append_assoc block_start (chunk_stream 1 ds ++ stream_end m k) rest
        ∙ ap (λ t. block_start ++ t)
            (append_assoc (chunk_stream 1 ds) (stream_end m k) rest
              ∙ ap (λ t. chunk_stream 1 ds ++ t) (stream_end_shape m k rest (omega arith))) in
      subst (λ t. Delivers c sha256 n (between c sha256 n t) (concat ds ++ out)) (sym shape)
        (open_block-Delivers s (concat ds ++ out) (λ size.
          chunks-Delivers ds 1 s (new_chunk_reader c s size) tail out 0 chunks (inl refl)
            (refl, refl, refl, refl)
            (λ b' h.
              let size' : b'.compressed ≡ m + 1 = h.3 ∙ omega arith in
              again-Delivers c sha256 n (inside c sha256 n s b') (between c sha256 n behind) out
                (block_round-end c sha256 n s b' behind h.1 h.2
                  (h.0 ∙ ap (λ k. replicate (padding k) 0 ++ behind) (sym size')))
                (stream_end-Delivers (m + 13) k rest out r (omega arith) (omega arith) e g))))

  next_stream_lem :
      (x s : Bytes)
      → after_stream c sha256 (between c sha256 n s) (skip_stream_padding (stream_start ++ x))
        ≡ ok (between c sha256 n (block_start ++ x))
  unfolding after_stream next_stream skip_stream_padding stream_start
  next_stream_lem x s =
      bind_ok (read_stream_header (stream_start ++ x)) (no_check, block_start ++ x) _ _
        (read_stream_header-stream_start x) refl

  -- Streams one after the other, the first behind its header.
  streams-Delivers :
      (ds : List Bytes) (dss : List (List Bytes))
      → Small ds
      → All Small dss
      → Delivers c sha256 n
          (between c sha256 n (body ds ++ concat (map stream_bytes dss)))
          (concat ds ++ concat (map concat dss))
  unfolding after_stream skip_stream_padding
  streams-Delivers ds [] small tt_ =
      body-Delivers ds [] []
        (record { input = []; check = no_check; block = none; finished = true }) small (λ s. refl)
        (ended-Delivers c sha256 n _ refl)
  streams-Delivers ds (d ∷ dss) small (small', smalls) =
      let more = concat (map stream_bytes dss) in
      let chunks = chunk_stream 1 d ++ stream_end (measure d) (length (concat d)) in
      let first = append_assoc stream_start chunks more in
      let second = append_assoc block_start chunks more in
      body-Delivers ds (stream_bytes d ++ more) (concat d ++ concat (map concat dss))
        (between c sha256 n (body d ++ more)) small
        (λ s.
          ap (λ t. after_stream c sha256 (between c sha256 n s) (skip_stream_padding t)) first
          ∙ (next_stream_lem (chunks ++ more) s ∙ ap (λ t. ok (between c sha256 n t)) (sym second)))
        (streams-Delivers d dss small' smalls)

-- The streams of several files, one behind the other.
unfoldable pub compress_all : List (List Bytes) → Result XzError Bytes
compress_all [] = ok []
compress_all (file ∷ files) = compress file >>= λ s. compress_all files >>= λ t. ok (s ++ t)

abbrev pub IsSmall : List Bytes → Type 0
IsSmall file = length (concat file) < limit

compress_all-streams :
    (files : List (List Bytes))
    → All IsSmall files
    → (dss : List (List Bytes)) × (compress_all files ≡ ok (concat (map stream_bytes dss)))
      × All Small dss
      × (concat (map concat dss) ≡ concat (map concat files))
unfolding compress_all
compress_all-streams [] h = ([], refl, tt, refl)
compress_all-streams (file ∷ files) (h, hs) =
    let (ds, out, chunks, same) = compress-stream_bytes file h in
    let (dss, outs, smalls, sames) = compress_all-streams files hs in
    (
      ds ∷ dss,
      bind_ok (compress file) (stream_bytes ds) _ _ out
          (bind_ok (compress_all files) (concat (map stream_bytes dss)) _ _ outs refl),
      ((chunks, subst (λ s. length s < limit) (sym same) h), smalls),
      ap₂ (λ a b. a ++ b) same sames,
    )

-- One or more files below 2 ^ 60 bytes, each written in any pieces to a writer of its own that is then
-- closed: a caller that reads all their streams, one behind the other, `n` bytes at a time with `n` not
-- 0, gets in finitely many rounds the data of all files in order, and no error, whatever decoder of
-- compressed chunks and whatever SHA-256 is used.
pub read_all-compress_all :
    (c : Lzma) (sha256 : Bytes → Bytes) (n : ℕ) (file : List Bytes) (files : List (List Bytes))
    → 0 < n
    → All IsSmall (file ∷ files)
    → (out : Bytes) × (compress_all (file ∷ files) ≡ ok out)
      × (enough : ℕ) × ((fuel : ℕ)
          → enough ≤ fuel
          → (new_reader c sha256 out >>= read_all c sha256 fuel n)
            ≡ ok (concat (map concat (file ∷ files))))
unfolding new_reader
read_all-compress_all c sha256 n file files pos_ (h, hs) =
    let (ds, out, chunks, same) = compress-stream_bytes file h in
    let (dss, outs, smalls, sames) = compress_all-streams files hs in
    let more = concat (map stream_bytes dss) in
    let rest = chunk_stream 1 ds ++ stream_end (measure ds) (length (concat ds)) in
    let small : Small ds = (chunks, subst (λ s. length s < limit) (sym same) h) in
    let (enough, reads) = streams-Delivers c sha256 n pos_ ds dss small smalls in
    let start : new_reader c sha256 (stream_bytes ds ++ more)
        ≡ ok (between c sha256 n (body ds ++ more)) =
      ap (new_reader c sha256) (append_assoc stream_start rest more)
      ∙ (bind_ok (read_stream_header (stream_start ++ (rest ++ more)))
            (no_check, block_start ++ (rest ++ more)) _ _
            (read_stream_header-stream_start (rest ++ more)) refl
          ∙ ap (λ t. ok (between c sha256 n t)) (sym (append_assoc block_start rest more))) in
    (
      stream_bytes ds ++ more,
      unfold compress_all in
          bind_ok (compress file) (stream_bytes ds) _ _ out
            (bind_ok (compress_all files) more _ _ outs refl),
      enough,
      λ fuel le.
          bind_ok (new_reader c sha256 (stream_bytes ds ++ more))
            (between c sha256 n (body ds ++ more)) (read_all c sha256 fuel n) _ start
            (reads fuel le ∙ ap ok (ap₂ (λ a b. a ++ b) same sames)),
    )
