-- ===== src/Zstd/BlockRoundTrip.antt =====
-- A block of `zstdWriter` under `readBlock` of `zstdReader`.
use ba.Base.{
  read_exactly-append, ℕ, ◌+◌, ◌*◌, ◌/◌, ◌%◌, ◌≤◌, ◌<◌, ◌≡◌, inl, inr, refl, ap, ◌∙◌, Bool, true,
  false, [], ◌∷◌, ◌++◌, append_assoc, Bytes, arith, ltb, ◌==◌, if◌then◌else◌, length, take,
  replicate, Bool-cases, Result, ok, err, ◌>>=◌, bind_ok,
}
use ba.Xxh64.{little_endian}
use ba.Zstd.Writer.{
  ZstdError, bad_data, unexpected_eof, raw_block_size, is_uniform, is_all, block_header,
  block_bytes,
}
use ba.Zstd.Reader.{read_full}
use ba.Zstd.Blocks.{Decoder, Reader, grown, read_body, end_block, read_block}
use ba.Zstd.Written.{Fits}

-- The three bytes of a header make up its number.
three_bytes :
    (v : ℕ) → v < 16777216 → little_endian (v % 256 ∷ v / 256 % 256 ∷ v / 65536 % 256 ∷ []) ≡ v
unfolding little_endian
three_bytes v h = omega arith

little_endian-block_header :
    (size type : ℕ) (last : Bool)
    → size ≤ raw_block_size
    → type < 4
    → little_endian (block_header size type last) ≡ size * 8 + type * 2 + (if last then 1 else 0)
unfolding block_header raw_block_size
little_endian-block_header size type true h t = three_bytes (size * 8 + type * 2 + 1) (omega arith)
little_endian-block_header size type false h t = three_bytes (size * 8 + type * 2 + 0) (omega arith)

fields :
    (size type : ℕ) (last : Bool)
    → type < 4
    → (let v = size * 8 + type * 2 + (if last then 1 else 0) in
        (v / 8 ≡ size) × (v / 2 % 4 ≡ type) × ((v % 2 == 1) ≡ last))
fields size type true t = (omega arith, omega arith, ground arith)
fields size type false t = (omega arith, omega arith, ground arith)

is_all-replicate : (c : ℕ) (s : Bytes) → is_all c s ≡ true → replicate (length s) c ≡ s
unfolding is_all
is_all-replicate c [] h = refl
is_all-replicate c (b ∷ s) h = ground (arith, is_all-replicate c s)

read_full-append : (s rest : Bytes) → read_full (length s) (s ++ rest) ≡ ok (s, rest)
unfolding read_full
read_full-append s rest = read_exactly-append unexpected_eof s rest

read_full-block_header :
    (size type : ℕ) (last : Bool) (rest : Bytes)
    → read_full 3 (block_header size type last ++ rest) ≡ ok (block_header size type last, rest)
unfolding block_header
read_full-block_header size type last rest = read_full-append (block_header size type last) rest

module _ (c : Decoder) where
  -- What `read_block` does behind a header that it can read.
  behind_header : Reader c → ℕ → Bytes → Result ZstdError (Reader c)
  behind_header r v rest =
      if ltb raw_block_size (v / 8)
      then err bad_data
      else (read_body c r (v / 2 % 4) (v / 8) rest >>= λ r'.
          end_block c (length r.window) (v % 2 == 1) r')

  behind_header-fields :
      (r : Reader c) (v size type : ℕ) (last : Bool) (rest : Bytes)
      → (v / 8 ≡ size) × (v / 2 % 4 ≡ type) × ((v % 2 == 1) ≡ last)
      → size ≤ raw_block_size
      → behind_header r v rest
        ≡ (read_body c r type size rest >>= λ r'. end_block c (length r.window) last r')
  unfolding behind_header
  behind_header-fields r v size type last rest (e, f, g) h =
      let small : ltb raw_block_size size ≡ false = ground arith in rw (e, f, g, small)

  read_block-block_header :
      (r : Reader c) (size type : ℕ) (last : Bool) (rest : Bytes)
      → r.input ≡ block_header size type last ++ rest
      → size ≤ raw_block_size
      → type < 4
      → read_block c r
        ≡ (read_body c r type size rest >>= λ r'. end_block c (length r.window) last r')
  unfolding read_block raw_block_size behind_header
  read_block-block_header r size type last rest e h t =
      bind_ok (read_full 3 r.input) (block_header size type last, rest)
        (λ p. behind_header r (little_endian p.0) p.1)
        (read_body c r type size rest >>= λ r'. end_block c (length r.window) last r')
        (ap (read_full 3) e ∙ read_full-block_header size type last rest)
        (ap (λ v. behind_header r v rest) (little_endian-block_header size type last h t)
          ∙ behind_header-fields r _ size type last rest (fields size type last t) h)

  read_body-stored :
      (r : Reader c) (d rest : Bytes)
      → read_body c r 0 (length d) (d ++ rest) ≡ ok (grown c r rest d)
  unfolding read_body
  read_body-stored r d rest = rw (read_full-append d rest) refl

  read_body-repeated :
      (r : Reader c) (d rest : Bytes)
      → is_uniform d ≡ true
      → read_body c r 1 (length d) (take 1 d ++ rest) ≡ ok (grown c r rest d)
  unfolding read_body is_uniform
  read_body-repeated r [] rest h = cc
  read_body-repeated r (b ∷ d) rest h =
      ap (λ s. ok (grown c r rest (b ∷ s))) (is_all-replicate b d h)

  -- A stored or repeated block gives its bytes.
  pub read_block-block_bytes :
      (r : Reader c) (d rest : Bytes) (last : Bool)
      → r.input ≡ block_bytes d last ++ rest
      → Fits d
      → read_block c r ≡ end_block c (length r.window) last (grown c r rest d)
  unfolding block_bytes
  read_block-block_bytes r d rest last e fits = elim (Bool-cases (is_uniform d)) [
    | inl u ↦
        let e' : r.input ≡ block_header (length d) 1 last ++ (take 1 d ++ rest) =
          e ∙ rw (u, append_assoc) in
        read_block-block_header r (length d) 1 last (take 1 d ++ rest) e' fits (omega arith)
        ∙ rw (read_body-repeated r d rest u)
    | inr u ↦
        let e' : r.input ≡ block_header (length d) 0 last ++ (d ++ rest) =
          e ∙ rw (u, append_assoc) in
        read_block-block_header r (length d) 0 last (d ++ rest) e' fits (omega arith)
        ∙ rw (read_body-stored r d rest)
  ]
