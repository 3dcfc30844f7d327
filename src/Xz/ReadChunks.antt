-- ===== src/Xz/ReadChunks.antt =====
-- What `lzma2Reader` makes of the chunks of `xzWriter`.
use ba.Base.{
  ℕ, ◌+◌, ◌-◌, ◌*◌, ◌/◌, ◌%◌, ◌≡◌, ◌⊎◌, inl, inr, refl, ap, ◌∙◌, min, true, ◌||◌, [], ◌∷◌, ◌++◌,
  Bytes, arith, ltb, leb, if_true, Bool-cases, length, length-drop, drop, next_byte, ok, ◌>>=◌,
  bind_ok,
}
use ba.Xz.Check.{unexpected_eof}
use ba.Xz.Writer.{chunk_bytes}
use ba.Xz.Header.{read_full}
use ba.Xz.Chunks.{
  Lzma, ChunkReader, big_endian, compact, read_be16, reset_dictionary, stored_bytes,
  read_stored_chunk, dispatch, read_chunk,
}
use ba.Xz.ReadHeaders.{read_full-append}
use ba.Xz.Written.{IsChunk}

length_again :
    (d : Bytes) → IsChunk d → (length d - 1) / 256 % 256 * 256 + (length d - 1) % 256 + 1 ≡ length d
length_again d h = omega arith

module _ (c : Lzma) where
  open c use {reset_state, advance}

  -- The reader behind a stored chunk.
  abbrev stored : ChunkReader c → Bytes → Bytes → ChunkReader c
  stored r d rest = record r {
    input = rest;
    buf = r.buf ++ d;
    compressed = r.compressed + 2 + length d;
    dec = reset_state (advance r.dec (length d));
  }

  stored_bytes_lem :
      (r : ChunkReader c) (size : ℕ) (d rest : Bytes)
      → r.input ≡ d ++ rest
      → size + 1 ≡ length d
      → stored_bytes c size r
        ≡ ok (record r {
          input = rest;
          buf = r.buf ++ d;
          compressed = r.compressed + length d;
          dec = reset_state (advance r.dec (length d));
        })
  unfolding stored_bytes
  stored_bytes_lem r size d rest e h = rw h (
      bind_ok (read_full (length d) r.input) (d, rest) _ _
        (ap (read_full (length d)) e ∙ read_full-append (length d) d rest refl) refl)

  stored_lem :
      (r : ChunkReader c) (d rest : Bytes)
      → r.input ≡ (length d - 1) / 256 % 256 ∷ (length d - 1) % 256 ∷ d ++ rest
      → IsChunk d
      → (read_be16 c r >>= λ p. stored_bytes c p.0 p.1) ≡ ok (stored r d rest)
  unfolding read_be16
  stored_lem r d rest e h =
      let pair = (length d - 1) / 256 % 256 ∷ (length d - 1) % 256 ∷ [] in
      let r' = record r { input = d ++ rest; compressed = r.compressed + 2 } in
      bind_ok (read_be16 c r) (big_endian pair, r') (λ p. stored_bytes c p.0 p.1)
        (ok (stored r d rest))
        (bind_ok (read_full 2 r.input) (pair, d ++ rest) _ _
          (ap (read_full 2) e ∙ read_full-append 2 pair (d ++ rest) refl) refl)
        (stored_bytes_lem r' (big_endian pair) d rest refl (length_again d h))

  -- The control byte of a stored chunk, where the reader may take it.
  abbrev pub Allowed : ℕ → ChunkReader c → Type 0
  Allowed control r = (control ≡ 1) ⊎ ((control ≡ 2) × (r.saw_dict_init ≡ true))

  -- `r'` is the reader `r` behind a chunk of the data `d`.
  abbrev pub IsBehind : ChunkReader c → Bytes → Bytes → ChunkReader c → Type 0
  IsBehind r d rest r' =
      (r'.input ≡ rest)
      × (r'.buf ≡ r.buf ++ d)
      × (r'.consumed ≡ r.consumed)
      × (r'.finished ≡ r.finished)
      × (r'.compressed ≡ r.compressed + (length d + 2))
      × (r'.saw_dict_init ≡ true)

  stored_chunk-IsBehind :
      (control : ℕ) (r : ChunkReader c) (d rest : Bytes)
      → Allowed control r
      → r.input ≡ (length d - 1) / 256 % 256 ∷ (length d - 1) % 256 ∷ d ++ rest
      → IsChunk d
      → (r' : ChunkReader c) × (dispatch c control r ≡ ok r') × IsBehind r d rest r'
  unfolding dispatch read_stored_chunk reset_dictionary
  stored_chunk-IsBehind control r d rest (inl one) e h =
      let r1 = reset_dictionary c r in
      (
        stored r1 d rest,
        rw (one, dispatch) (stored_lem r1 d rest e h),
        (refl, refl, refl, refl, omega arith, refl),
      )
  stored_chunk-IsBehind control r d rest (inr (two, saw)) e h = (
    stored r d rest,
    rw (two, dispatch) (if_true r.saw_dict_init _ _ _ saw (stored_lem r d rest e h)),
    (refl, refl, refl, refl, omega arith, saw),
  )

  pub read_chunk-IsBehind :
      (control : ℕ) (r : ChunkReader c) (d rest : Bytes)
      → Allowed control r
      → r.input ≡ chunk_bytes control d ++ rest
      → IsChunk d
      → (r' : ChunkReader c) × (read_chunk c r ≡ ok r')
        × IsBehind (record r { compressed = r.compressed + 1 }) d rest r'
  unfolding read_chunk
  read_chunk-IsBehind control r d rest a e h =
      let rest' = (length d - 1) / 256 % 256 ∷ (length d - 1) % 256 ∷ d ++ rest in
      let r1 = record r { input = rest'; compressed = r.compressed + 1 } in
      let (r', read, behind) = stored_chunk-IsBehind control r1 d rest a refl h in
      (
        r',
        bind_ok (next_byte unexpected_eof r.input) (control, rest') _ (ok r')
            (ap (next_byte unexpected_eof) e) read,
        behind,
      )

  -- The mark of the end.
  pub read_chunk_end :
      (r : ChunkReader c) (rest : Bytes)
      → r.input ≡ 0 ∷ rest
      → read_chunk c r
        ≡ ok (record r { input = rest; compressed = r.compressed + 1; finished = true })
  unfolding read_chunk dispatch
  read_chunk_end r rest e =
      bind_ok (next_byte unexpected_eof r.input) (0, rest) _ _ (ap (next_byte unexpected_eof) e)
        refl

  -- A reader that has delivered all it holds drops some of that, and nothing else changes.
  pub compact_delivered :
      (r : ChunkReader c)
      → r.consumed ≡ length r.buf
      → (size : ℕ) × (s : Bytes) × (compact c r ≡ record r { buf = s; consumed = size })
        × (size ≡ length s)
  unfolding compact
  compact_delivered r h =
      let dropped = min (length r.buf - r.dict_size) r.consumed in
      elim (Bool-cases (leb (length r.buf) r.dict_size || ltb dropped 1048576)) [
        | inl stays ↦ (r.consumed, r.buf, rw stays refl, h)
        | inr goes ↦ (
          r.consumed - dropped,
          drop dropped r.buf,
          rw goes refl,
          omega (arith, length-drop dropped r.buf),
        )
      ]
