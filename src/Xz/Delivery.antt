-- ===== src/Xz/Delivery.antt =====
-- A caller of `xzReader.Read` gets what the chunks of a block hold, whatever his buffer holds.
use ba.Base.{
  ℕ, zero, suc, ◌+◌, ◌-◌, ◌≤◌, ◌<◌, ◌≡◌, ◌≢◌, inl, inr, refl, sym, ap, ◌∙◌, min, true, false, [],
  ◌++◌, append_assoc, none, some, Bytes, arith, ◌==◌, ==→eq, ==_refl, if_true, if_false, Bool-cases,
  length, length-take, length-drop, take, drop, drop-length, drop-length-take, drop-add,
  take-append-drop, replicate, ok, bind_ok,
}
use mathlib.Core.Path.{subst}
use ba.Xz.Writer.{padding}
use ba.Xz.Header.{skip_padding}
use ba.Xz.Chunks.{Lzma, ChunkReader, compact, read_chunk}
use ba.Xz.Reader.{Reader, again, gives, ended, finish_block, block_round, read_round, read_all}
use ba.Xz.ReadHeaders.{no_check, skip_padding-replicate}

module _ (c : Lzma) (sha256 : Bytes → Bytes) (n : ℕ) where
  -- From some number of rounds on, the caller gets `out`.
  abbrev pub Delivers : Reader c sha256 → Bytes → Type 0
  Delivers r out = (f : ℕ) × ((fuel : ℕ) → f ≤ fuel → read_all c sha256 fuel n r ≡ ok out)

  -- A reader in a block, and one between blocks.
  abbrev pub inside : Bytes → ChunkReader c → Reader c sha256
  inside input b = record { input = input; check = no_check; block = some b; finished = false }

  abbrev pub between : Bytes → Reader c sha256
  between input = record { input = input; check = no_check; block = none; finished = false }

  pub again-Delivers :
      (r r' : Reader c sha256) (out : Bytes)
      → read_round c sha256 n r ≡ ok (again r')
      → Delivers r' out
      → Delivers r out
  unfolding read_all
  again-Delivers r r' out e (f, g) = (suc f, rounds)
    where
      rounds : (fuel : ℕ) → suc f ≤ fuel → read_all c sha256 fuel n r ≡ ok out
      rounds zero le = absurd (omega arith)
      rounds (suc fuel) le =
          bind_ok (read_round c sha256 n r) (again r') _ (ok out) e (g fuel (omega arith))

  gives-Delivers :
      (r r' : Reader c sha256) (part out : Bytes)
      → read_round c sha256 n r ≡ ok (gives part r')
      → Delivers r' out
      → Delivers r (part ++ out)
  unfolding read_all
  gives-Delivers r r' part out e (f, g) = (suc f, rounds)
    where
      rounds : (fuel : ℕ) → suc f ≤ fuel → read_all c sha256 fuel n r ≡ ok (part ++ out)
      rounds zero le = absurd (omega arith)
      rounds (suc fuel) le =
          bind_ok (read_round c sha256 n r) (gives part r') _ (ok (part ++ out)) e (
            bind_ok (read_all c sha256 fuel n r') out (λ more. ok (part ++ more)) (ok (part ++ out))
              (g fuel (omega arith)) refl)

  -- A reader that is at the end.
  pub ended-Delivers : (r : Reader c sha256) → r.finished ≡ true → Delivers r []
  unfolding read_all read_round
  ended-Delivers r e = (1, rounds)
    where
      rounds : (fuel : ℕ) → 1 ≤ fuel → read_all c sha256 fuel n r ≡ ok []
      rounds zero le = absurd (omega arith)
      rounds (suc fuel) le =
          bind_ok (read_round c sha256 n r) ended _ (ok [])
            (if_true r.finished (ok ended) _ (ok ended) e refl) refl

  unfoldable pub delivered : ChunkReader c → ChunkReader c
  delivered b = record b { consumed = length b.buf }

  -- A round that returns bytes.
  block_round-part :
      (input : Bytes) (b : ChunkReader c)
      → (b.consumed == length b.buf) ≡ false
      → (length (take n (drop b.consumed b.buf)) == 0) ≡ false
      → read_round c sha256 n (inside input b)
        ≡ ok (
            gives (take n (drop b.consumed b.buf)) (
              inside input
                (record b { consumed = b.consumed + length (take n (drop b.consumed b.buf)) })))
  unfolding read_round block_round
  block_round-part input b h k =
      if_false (b.consumed == length b.buf) _ _ _ h
        (if_false (length (take n (drop b.consumed b.buf)) == 0) _ _ _ k refl)

  delivered_eq : (b : ChunkReader c) → b.consumed ≡ length b.buf → delivered b ≡ b
  unfolding delivered
  delivered_eq b h = rw (← h) refl

  nothing_left :
      (input : Bytes) (b : ChunkReader c) (out : Bytes)
      → b.consumed ≡ length b.buf
      → Delivers (inside input (delivered b)) out
      → Delivers (inside input b) (drop b.consumed b.buf ++ out)
  nothing_left input b out h g =
      let none_ : drop b.consumed b.buf ≡ [] = ap (λ k. drop k b.buf) h ∙ drop-length b.buf in
      subst (λ s. Delivers (inside input b) (s ++ out)) (sym none_)
        (subst (λ b'. Delivers (inside input b') out) (delivered_eq b h) g)

  pub drain :
      (k : ℕ) (input : Bytes) (b : ChunkReader c) (out : Bytes)
      → 0 < n
      → length b.buf ≤ b.consumed + k
      → b.consumed ≤ length b.buf
      → Delivers (inside input (delivered b)) out
      → Delivers (inside input b) (drop b.consumed b.buf ++ out)
  unfolding delivered
  drain zero input b out pos_ e h g = nothing_left input b out (omega arith) g
  drain (suc k) input b out pos_ e h g = elim (Bool-cases (b.consumed == length b.buf)) [
    | inl same ↦ nothing_left input b out (==→eq _ _ same) g
    | inr more ↦
        let pending = drop b.consumed b.buf in
        let part = take n pending in
        let differ : b.consumed ≢ length b.buf = ground arith in
        let long : length part ≡ min n (length pending) = length-take n pending in
        let left : length pending ≡ length b.buf - b.consumed = length-drop b.consumed b.buf in
        let some_ : (length part == 0) ≡ false = ground arith in
        let b' = record b { consumed = b.consumed + length part } in
        let ih = drain k input b' out pos_ (omega arith) (omega arith) g in
        let rest : drop (b.consumed + length part) b.buf ≡ drop n pending =
          ap (λ k. drop k b.buf) (omega arith)
          ∙ (sym (drop-add b.consumed (length part) b.buf) ∙ drop-length-take n pending) in
        let whole : part ++ (drop (b.consumed + length part) b.buf ++ out) ≡ pending ++ out =
          ap (λ s. part ++ (s ++ out)) rest
          ∙ (sym (append_assoc part (drop n pending) out)
              ∙ ap (λ s. s ++ out) (take-append-drop n pending)) in
        subst (Delivers (inside input b)) whole (
          gives-Delivers (inside input b) (inside input b') part _
            (block_round-part input b more some_) ih)
  ]

  -- A round that reads a chunk.
  pub block_round-chunk :
      (input : Bytes) (b b' : ChunkReader c)
      → b.consumed ≡ length b.buf
      → b.finished ≡ false
      → read_chunk c (compact c b) ≡ ok b'
      → read_round c sha256 n (inside input b) ≡ ok (again (inside input b'))
  unfolding read_round block_round
  block_round-chunk input b b' h e r =
      let all_ : (b.consumed == length b.buf) ≡ true = rw h (==_refl (length b.buf)) in
      if_true (b.consumed == length b.buf) _ _ _ all_ (
        if_false b.finished _ _ _ e
          (bind_ok (read_chunk c (compact c b)) b' (λ b''. ok (again (inside input b''))) _ r refl))

  -- A round that ends a block.
  pub block_round-end :
      (input : Bytes) (b : ChunkReader c) (rest : Bytes)
      → b.consumed ≡ length b.buf
      → b.finished ≡ true
      → b.input ≡ replicate (padding b.compressed) 0 ++ rest
      → read_round c sha256 n (inside input b) ≡ ok (again (between rest))
  unfolding read_round block_round finish_block
  block_round-end input b rest h e i =
      let all_ : (b.consumed == length b.buf) ≡ true = rw h (==_refl (length b.buf)) in
      if_true (b.consumed == length b.buf) _ _ _ all_ (
        if_true b.finished _ _ _ e (
          bind_ok (finish_block c sha256 (inside input b) b) (between rest) (λ r'. ok (again r')) _
            (bind_ok (skip_padding b.compressed b.input) rest _ _
              (ap (skip_padding b.compressed) i
                ∙ skip_padding-replicate b.compressed (padding b.compressed) rest refl)
              refl)
            refl))
