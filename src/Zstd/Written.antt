-- ===== src/Zstd/Written.antt =====
-- What `zstdWriter` has written: a frame header and blocks that make up the data.
use ba.Base.{
  ℕ, zero, suc, ◌+◌, ◌-◌, ◌≤◌, ◌<◌, ◌≡◌, ◌⊎◌, inl, inr, refl, sym, ap, ◌∙◌, min, Bool, true, false,
  List, [], ◌∷◌, ◌++◌, append_assoc, append-nil, Bytes, arith, All, All-append, ltb, ◌==◌, if_false,
  length, length-append, length-take, length-drop, take, drop, take-append-drop, concat,
  concat-append, Result, ok, err, ◌>>=◌, bind_ok,
}
use mathlib.Core.Path.{subst}
use ba.Zstd.Writer.{
  ZstdError, Writer, raw_block_size, frame_magic, new_writer, block_bytes, write_block, emptied,
  spill, write_loop, write, close, written_after_close,
}

-- The blocks before the last.
abbrev pub bodies : List Bytes → Bytes
bodies [] = []
bodies (d ∷ ds) = block_bytes d false ++ bodies ds

abbrev pub Fits : Bytes → Type 0
Fits d = length d ≤ raw_block_size

abbrev pub frame_start : Bytes
frame_start = frame_magic ++ 0 ∷ 0x38 ∷ []

-- A writer that has taken the data `s`.
abbrev pub IsWriting : Writer → Bytes → Type 0
IsWriting w s =
    (ds : List Bytes) × (w.output ≡ frame_start ++ bodies ds)
    × All Fits ds
    × Fits w.block
    × (w.closed ≡ false)
    × (concat ds ++ w.block ≡ s)

bodies-append :
    (ds : List Bytes) (d : Bytes) → bodies (ds ++ d ∷ []) ≡ bodies ds ++ block_bytes d false
bodies-append [] d = append-nil (block_bytes d false)
bodies-append (e ∷ ds) d = rw (bodies-append ds d, append_assoc)

write_block-Fits :
    (w : Writer) (s : Bytes) (last : Bool)
    → Fits s
    → write_block w s last ≡ ok (record w { output = w.output ++ block_bytes s last })
unfolding write_block
write_block-Fits w s last h = ground arith

-- A full block is written, and the next one is empty.
emptied-IsWriting :
    (w : Writer) (s : Bytes)
    → IsWriting w s
    → IsWriting (emptied (record w { output = w.output ++ block_bytes w.block false })) s
unfolding emptied
emptied-IsWriting w s (ds, out, fits, fit, open_, same) = (
  ds ++ w.block ∷ [],
  rw (out, bodies-append ds w.block, append_assoc),
  All-append Fits ds (w.block ∷ []) fits (fit, tt),
  omega arith,
  open_,
  append-nil (concat (ds ++ w.block ∷ []))
      ∙ (concat-append ds (w.block ∷ []) ∙ (ap (λ t. concat ds ++ t) (append-nil w.block) ∙ same)),
)

-- Bytes that fit are added to the block.
filled-IsWriting :
    (w : Writer) (s t : Bytes)
    → IsWriting w s
    → length w.block + length t ≤ raw_block_size
    → IsWriting (record w { block = w.block ++ t }) (s ++ t)
filled-IsWriting w s t (ds, out, fits, fit, open_, same) le = (
  ds,
  out,
  fits,
  omega (arith, length-append w.block t),
  open_,
  sym (append_assoc (concat ds) w.block t) ∙ ap (λ u. u ++ t) same,
)

-- The rounds that are enough for the data `s`: a full block takes one more.
abbrev Enough : ℕ → Writer → Bytes → Type 0
Enough fuel w s =
    (length s ≡ 0)
    ⊎ ((length s + 1 ≤ fuel) ⊎ ((length s ≤ fuel) × (length w.block < raw_block_size)))

spill-IsWriting :
    (w : Writer) (t rest : Bytes)
    → IsWriting w t
    → (length rest ≡ 0) ⊎ (length w.block ≡ raw_block_size)
    → (w' : Writer) × (spill w rest ≡ ok w')
      × IsWriting w' t
      × ((length rest ≡ 0) ⊎ (length w'.block < raw_block_size))
unfolding spill
spill-IsWriting w t [] h full = (w, ground arith, h, inl refl)
spill-IsWriting w t (c ∷ s) h (inl none_) = absurd (omega arith)
spill-IsWriting w t (c ∷ s) h (inr full) =
    let (ds, out, fits, fit, open_, same) = h in
    let yes_ : (length w.block == raw_block_size) ≡ true = ground arith in
    let more : ltb 0 (length (c ∷ s)) ≡ true = ground arith in
    (
      emptied (record w { output = w.output ++ block_bytes w.block false }),
      rw (yes_, more, write_block-Fits w w.block false fit),
      emptied-IsWriting w t h,
      inr (unfold emptied raw_block_size in omega arith),
    )

write_loop-IsWriting :
    (fuel : ℕ) (w : Writer) (t s : Bytes)
    → IsWriting w t
    → Enough fuel w s
    → (w' : Writer) × (write_loop fuel w s ≡ ok w') × IsWriting w' (t ++ s)
unfolding write_loop
write_loop-IsWriting fuel w t [] h e = (w, refl, rw (append-nil t) h)
write_loop-IsWriting zero w t (c ∷ s) h e = absurd (omega arith)
write_loop-IsWriting (suc fuel) w t (c ∷ s) h e =
    let amount = min (raw_block_size - length w.block) (length (c ∷ s)) in
    let part = take amount (c ∷ s) in
    let rest = drop amount (c ∷ s) in
    let some_ : 0 < raw_block_size = unfold raw_block_size in omega arith in
    let fits : length w.block ≤ raw_block_size = h.3 in
    let long = length-take amount (c ∷ s) in
    let left = length-drop amount (c ∷ s) in
    let filled = record w { block = w.block ++ part } in
    let held = filled-IsWriting w t part h (omega arith) in
    let full : (length rest ≡ 0) ⊎ (length filled.block ≡ raw_block_size) =
      omega (arith, length-append w.block part) in
    let (w1, spilled, h1, next) = spill-IsWriting filled (t ++ part) rest held full in
    let e1 : Enough fuel w1 rest = ground arith in
    let (w', written, h') = write_loop-IsWriting fuel w1 (t ++ part) rest h1 e1 in
    let whole = append_assoc t part rest ∙ ap (λ u. t ++ u) (take-append-drop amount (c ∷ s)) in
    (
      w',
      bind_ok (spill filled rest) w1 (λ w2. write_loop fuel w2 rest) (ok w') spilled written,
      subst (IsWriting w') whole h',
    )

-- Writing pieces one after the other.
unfoldable pub write_all : Writer → List Bytes → Result ZstdError Writer
unfolding write
write_all w [] = ok w
write_all w (piece ∷ pieces) = write w piece >>= λ w'. write_all w' pieces

write-IsWriting :
    (w : Writer) (t s : Bytes)
    → IsWriting w t
    → (w' : Writer) × (write w s ≡ ok w') × IsWriting w' (t ++ s)
unfolding write
write-IsWriting w t s h =
    let (w', written, h') = write_loop-IsWriting (length s + 1) w t s h (inr (inl (omega arith))) in
    (
      w',
      if_false w.closed (err written_after_close) (write_loop (length s + 1) w s) (ok w') h.4
          written,
      h',
    )

write_all-IsWriting :
    (w : Writer) (t : Bytes) (pieces : List Bytes)
    → IsWriting w t
    → (w' : Writer) × (write_all w pieces ≡ ok w') × IsWriting w' (t ++ concat pieces)
unfolding write_all
write_all-IsWriting w t [] h = (w, refl, rw (append-nil t) h)
write_all-IsWriting w t (piece ∷ pieces) h =
    let (w1, written, h1) = write-IsWriting w t piece h in
    let (w', rest, h') = write_all-IsWriting w1 (t ++ piece) pieces h1 in
    (
      w',
      bind_ok (write w piece) w1 (λ w2. write_all w2 pieces) (ok w') written rest,
      subst (IsWriting w') (append_assoc t piece (concat pieces)) h',
    )

-- The output of a writer that has taken `pieces` and is closed: the frame's start, blocks that fit,
-- and a last block, whose data are the data that were written.
pub write_all-close :
    (pieces : List Bytes)
    → (ds : List Bytes) × (last : Bytes) × (w : Writer) × ((write_all new_writer pieces >>= close)
        ≡ ok w)
      × (w.output ≡ frame_start ++ (bodies ds ++ block_bytes last true))
      × All Fits ds
      × Fits last
      × (concat ds ++ last ≡ concat pieces)
unfolding new_writer close
write_all-close pieces =
    let start : IsWriting new_writer [] = ([], refl, tt, omega arith, refl, refl) in
    let (w, written, (ds, out, fits, fit, open_, same)) =
      write_all-IsWriting new_writer [] pieces start in
    (
      ds,
      w.block,
      record w { closed = true; output = w.output ++ block_bytes w.block true },
      bind_ok (write_all new_writer pieces) w close
          (ok (record w { closed = true; output = w.output ++ block_bytes w.block true })) written
          (if_false w.closed (ok w) (write_block (record w { closed = true }) w.block true)
            (ok (record w { closed = true; output = w.output ++ block_bytes w.block true })) open_
            (write_block-Fits (record w { closed = true }) w.block true fit)),
      ap (λ u. u ++ block_bytes w.block true) out
          ∙ append_assoc frame_start (bodies ds) (block_bytes w.block true),
      fits,
      fit,
      same,
    )
