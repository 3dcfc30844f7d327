-- ===== src/Zstd/Delivery.antt =====
-- A caller of `zstdReader.Read` gets what the blocks add to the window, whatever its buffer holds.
use ba.Base.{
  ℕ, zero, suc, ◌+◌, ◌-◌, ◌≤◌, ◌<◌, ◌≡◌, ◌≢◌, inl, inr, refl, sym, ap, ap₂, ◌∙◌, min, true, false,
  List, [], ◌∷◌, ◌++◌, append_assoc, append-nil, Bytes, arith, All, ◌==◌, ==_refl, ==→eq, length,
  length-append, length-drop, length-take, take, drop, drop-add, drop-length, drop-length-take,
  take-append-drop, drop-append_left, concat, Bool-cases, ok,
}
use ba.Xxh64
use ba.Zstd.Writer.{block_bytes}
use ba.Zstd.Blocks.{
  Decoder, Reader, compact, grown, end_block, finish_frame, go_on, read_block, read_all,
}
use ba.Zstd.Written.{bodies, Fits}
use ba.Zstd.BlockRoundTrip.{read_block-block_bytes}

module _ (c : Decoder) where
  -- From `f` rounds on, the caller gets `out`.
  abbrev pub Gives : ℕ → Reader c → ℕ → Bytes → Type 0
  Gives n r f out = (fuel : ℕ) → f ≤ fuel → read_all c fuel n r ≡ ok out

  delivered : (r : Reader c) → Reader c
  delivered r = record r { consumed = length r.window }

  -- One round that returns bytes.
  read_all-step :
      (n fuel : ℕ) (r : Reader c) (out : Bytes)
      → (r.consumed == length r.window) ≡ false
      → read_all c fuel n
          (record r { consumed = r.consumed + length (take n (drop r.consumed r.window)) })
        ≡ ok out
      → read_all c (suc fuel) n r ≡ ok (take n (drop r.consumed r.window) ++ out)
  unfolding read_all
  read_all-step n fuel r out h e = rw (h, read_all) (rw e refl)

  read_all-finished :
      (n fuel : ℕ) (r : Reader c)
      → r.consumed ≡ length r.window
      → r.finished ≡ true
      → read_all c (suc fuel) n r ≡ ok []
  unfolding read_all
  read_all-finished n fuel r h e =
      let all_ : (r.consumed == length r.window) ≡ true = rw h (==_refl (length r.window)) in
      rw (all_, read_all) (rw (e, read_all) refl)

  read_all-block :
      (n fuel : ℕ) (r r' : Reader c)
      → r.consumed ≡ length r.window
      → r.finished ≡ false
      → read_block c (compact c r) ≡ ok r'
      → read_all c (suc fuel) n r ≡ read_all c fuel n r'
  unfolding read_all
  read_all-block n fuel r r' h e b =
      let all_ : (r.consumed == length r.window) ≡ true = rw h (==_refl (length r.window)) in
      rw (all_, read_all) (rw (e, read_all) (rw b refl))

  -- A reader that stands at the end of its window.
  delivered_eq : (r : Reader c) → r.consumed ≡ length r.window → delivered r ≡ r
  unfolding delivered
  delivered_eq r h = rw (← h) refl

  nothing_left :
      (n : ℕ) (r : Reader c) (f fuel : ℕ) (out : Bytes)
      → r.consumed ≡ length r.window
      → Gives n (delivered r) f out
      → f ≤ fuel
      → read_all c fuel n r ≡ ok (drop r.consumed r.window ++ out)
  unfolding delivered
  nothing_left n r f fuel out h g le =
      let none_ : drop r.consumed r.window ≡ [] =
        ap (λ k. drop k r.window) h ∙ drop-length r.window in
      ap (read_all c fuel n) (sym (delivered_eq r h))
      ∙ (g fuel le ∙ ap (λ s. ok (s ++ out)) (sym none_))

  drain :
      (k n : ℕ) (r : Reader c) (f : ℕ) (out : Bytes)
      → 0 < n
      → length r.window ≤ r.consumed + k
      → r.consumed ≤ length r.window
      → Gives n (delivered r) f out
      → Gives n r (f + k) (drop r.consumed r.window ++ out)
  unfolding delivered
  drain zero n r f out pos_ e h g fuel le =
      nothing_left n r f fuel out (omega arith) g (omega arith)
  drain (suc k) n r f out pos_ e h g zero le = absurd (omega arith)
  drain (suc k) n r f out pos_ e h g (suc fuel) le =
      elim (Bool-cases (r.consumed == length r.window)) [
        | inl same ↦ nothing_left n r f (suc fuel) out (==→eq _ _ same) g (omega arith)
        | inr more ↦
            let pending = drop r.consumed r.window in
            let part = take n pending in
            let r' = record r { consumed = r.consumed + length part } in
            let differ : r.consumed ≢ length r.window = ground arith in
            let long : length part ≡ min n (length pending) = length-take n pending in
            let left : length pending ≡ length r.window - r.consumed =
              length-drop r.consumed r.window in
            let ih = drain k n r' f out pos_ (omega arith) (omega arith) g fuel (omega arith) in
            let rest : drop (r.consumed + length part) r.window ≡ drop n pending =
              ap (λ k. drop k r.window) (omega arith)
              ∙ (sym (drop-add r.consumed (length part) r.window) ∙ drop-length-take n pending) in
            read_all-step n fuel r (drop n pending ++ out) more (ih ∙ ap (λ s. ok (s ++ out)) rest)
            ∙ ap ok (
                sym (append_assoc part (drop n pending) out)
                ∙ ap (λ s. s ++ out) (take-append-drop n pending))
      ]

  -- A reader that has delivered its window, in a frame without a checksum, before the bytes `input`.
  abbrev pub IsBetween : Reader c → Bytes → Type 0
  IsBetween r input =
      (r.input ≡ input)
      × (r.consumed ≡ length r.window)
      × (r.finished ≡ false)
      × (r.checksum ≡ false)

  compact-IsBetween :
      (r : Reader c) (input : Bytes) → IsBetween r input → IsBetween (compact c r) input
  unfolding compact
  compact-IsBetween r input h =
      let dropped = min (length r.window - r.win_size) r.consumed in
      ground (arith, length-drop dropped r.window)

  end_block-IsBetween :
      (r : Reader c) (d rest : Bytes)
      → r.consumed ≡ length r.window
      → r.finished ≡ false
      → r.checksum ≡ false
      → (r' : Reader c) × (end_block c (length r.window) false (grown c r rest d) ≡ ok r')
        × IsBetween (delivered r') rest
        × (r'.consumed ≡ length r.window)
        × (r'.window ≡ r.window ++ d)
  unfolding end_block delivered
  end_block-IsBetween r d rest h f k = (_, refl, (refl, refl, f, k), h, refl)

  end_block_last :
      (r : Reader c) (d : Bytes)
      → r.consumed ≡ length r.window
      → r.checksum ≡ false
      → (r' : Reader c) × (end_block c (length r.window) true (grown c r [] d) ≡ ok r')
        × (r'.finished ≡ true)
        × (r'.consumed ≡ length r.window)
        × (r'.window ≡ r.window ++ d)
  unfolding end_block finish_frame go_on
  end_block_last r d h k =
      let digest' = Xxh64.write r.digest (drop (length r.window) (r.window ++ d)) in
      (record (grown c r [] d) { digest = digest'; finished = true }, rw k refl, refl, h, refl)

  -- What is pending behind a block is the block.
  drain_block :
      (n f : ℕ) (r' : Reader c) (window d out : Bytes)
      → 0 < n
      → r'.consumed ≡ length window
      → r'.window ≡ window ++ d
      → Gives n (delivered r') f out
      → Gives n r' (f + length d) (d ++ out)
  drain_block n f r' window d out pos_ h w g fuel le =
      let long : length r'.window ≡ length window + length d =
        ap length w ∙ length-append window d in
      let pending : drop r'.consumed r'.window ≡ d = ap₂ drop h w ∙ drop-append_left window d in
      drain (length d) n r' f out pos_ (omega arith) (omega arith) g fuel le
      ∙ ap (λ s. ok (s ++ out)) pending

  -- The rounds that are enough for these blocks.
  abbrev pub rounds : List Bytes → Bytes → ℕ
  rounds [] last = 2 + length last
  rounds (d ∷ ds) last = 1 + (rounds ds last + length d)

  finished-Gives : (n : ℕ) (r : Reader c) → r.finished ≡ true → Gives n (delivered r) 1 []
  unfolding delivered
  finished-Gives n r fin zero le = absurd (omega arith)
  finished-Gives n r fin (suc fuel) le = read_all-finished n fuel (delivered r) refl fin

  last_round :
      (n : ℕ) (r : Reader c) (last : Bytes)
      → 0 < n
      → Fits last
      → IsBetween r (block_bytes last true)
      → Gives n r (rounds [] last) last
  last_round n r last pos_ fits h zero le = absurd (omega arith)
  last_round n r last pos_ fits h (suc fuel) le =
      let (input, all_, go, plain) = compact-IsBetween r (block_bytes last true) h in
      let (r', ended, fin, at, grew) = end_block_last (compact c r) last all_ plain in
      let read =
        read_block-block_bytes c (compact c r) last [] true
          (input ∙ sym (append-nil (block_bytes last true))) fits in
      read_all-block n fuel r r' h.1 h.2 (read ∙ ended)
      ∙ (drain_block n 1 r' (compact c r).window last [] pos_ at grew (finished-Gives n r' fin) fuel
            (omega arith)
          ∙ ap ok (append-nil last))

  -- A caller gets what the blocks hold, in order.
  pub blocks_round :
      (n : ℕ) (r : Reader c) (ds : List Bytes) (last : Bytes)
      → 0 < n
      → All Fits ds
      → Fits last
      → IsBetween r (bodies ds ++ block_bytes last true)
      → Gives n r (rounds ds last) (concat ds ++ last)
  blocks_round n r [] last pos_ fits fit h fuel le = last_round n r last pos_ fit h fuel le
  blocks_round n r (d ∷ ds) last pos_ fits fit h zero le = absurd (omega arith)
  blocks_round n r (d ∷ ds) last pos_ (fit_d, fits) fit h (suc fuel) le =
      let rest = bodies ds ++ block_bytes last true in
      let (input, all_, go, plain) =
        compact-IsBetween r (bodies (d ∷ ds) ++ block_bytes last true) h in
      let (r', ended, next, at, grew) = end_block-IsBetween (compact c r) d rest all_ go plain in
      let read =
        read_block-block_bytes c (compact c r) d rest false
          (input ∙ append_assoc (block_bytes d false) (bodies ds) (block_bytes last true)) fit_d in
      read_all-block n fuel r r' h.1 h.2 (read ∙ ended)
      ∙ (drain_block n (rounds ds last) r' (compact c r).window d (concat ds ++ last) pos_ at grew
            (blocks_round n (delivered r') ds last pos_ fits fit next) fuel (omega arith)
          ∙ ap ok (sym (append_assoc d (concat ds) last)))
