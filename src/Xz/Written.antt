-- ===== src/Xz/Written.antt =====
-- What `xzWriter` has written: the stream's start, chunks that make up the data, and the end.
use ba.Base.{
  ℕ, zero, suc, ◌+◌, ◌*◌, ◌^◌, ◌≤◌, ◌<◌, ◌≡◌, refl, sym, ap, ap₂, ◌∙◌, min, false, List, [], ◌∷◌,
  ◌++◌, append_assoc, append-nil, Bytes, arith, All, All-append, ◌==◌, if◌then◌else◌, if_false,
  length, length-append, length-take, length-drop, take, drop, take-append-drop, concat,
  concat-append, Result, ok, err, ◌>>=◌, bind_ok,
}
use mathlib.Core.Path.{subst}
use ba.Base.Int64.{add64-eq-add}
use ba.Xz.Check.{XzError, written_after_close}
use ba.Xz.Writer.{
  Writer, stream_start, new_writer, chunk_bytes, write_chunk, chunk_size, write_loop, write,
  stream_end, close,
}

abbrev pub IsChunk : Bytes → Type 0
IsChunk d = (0 < length d) × (length d ≤ chunk_size)

-- The chunks of a stream, the first with the control byte `control`.
abbrev pub chunk_stream : ℕ → List Bytes → Bytes
chunk_stream control [] = []
chunk_stream control (d ∷ ds) = chunk_bytes control d ++ chunk_stream 2 ds

-- The bytes that the chunks take.
abbrev pub measure : List Bytes → ℕ
measure [] = 0
measure (d ∷ ds) = length d + 3 + measure ds

abbrev pub stream_bytes : List Bytes → Bytes
stream_bytes ds =
    stream_start ++ (chunk_stream 1 ds ++ stream_end (measure ds) (length (concat ds)))

abbrev next_control : ℕ → List Bytes → ℕ
next_control control [] = control
next_control control (d ∷ ds) = 2

next_control_later : (ds : List Bytes) → next_control 2 ds ≡ 2
next_control_later [] = refl
next_control_later (d ∷ ds) = refl

chunk_stream-append :
    (k : ℕ) (ds : List Bytes) (d : Bytes)
    → chunk_stream k (ds ++ d ∷ []) ≡ chunk_stream k ds ++ chunk_bytes (next_control k ds) d
chunk_stream-append k [] d = append-nil (chunk_bytes k d)
chunk_stream-append k (e ∷ ds) d =
    ap (λ t. chunk_bytes k e ++ t) (chunk_stream-append 2 ds d)
    ∙ (sym (append_assoc (chunk_bytes k e) (chunk_stream 2 ds) (chunk_bytes (next_control 2 ds) d))
        ∙ ap (λ m. (chunk_bytes k e ++ chunk_stream 2 ds) ++ chunk_bytes m d)
            (next_control_later ds))

measure-append :
    (ds : List Bytes) (d : Bytes) → measure (ds ++ d ∷ []) ≡ measure ds + (length d + 3)
measure-append [] d = omega arith
measure-append (e ∷ ds) d = omega (arith, measure-append ds d)

-- A chunk holds a byte at least, so the counters stay below 2 ^ 64.
pub measure-le : (ds : List Bytes) → All IsChunk ds → measure ds ≤ 4 * length (concat ds)
measure-le [] h = omega arith
measure-le (d ∷ ds) (h, hs) = omega (arith, measure-le ds hs, length-append d (concat ds))

next_control-measure : (ds : List Bytes) → (if measure ds == 0 then 1 else 2) ≡ next_control 1 ds
next_control-measure [] = refl
next_control-measure (d ∷ ds) = ground arith

-- A writer that has taken the data `s`.
abbrev pub IsWriting : Writer → Bytes → Type 0
IsWriting w s =
    (ds : List Bytes) × (w.output ≡ stream_start ++ chunk_stream 1 ds)
    × (w.compressed ≡ measure ds)
    × (w.uncompressed ≡ length s)
    × All IsChunk ds
    × (w.closed ≡ false)
    × (concat ds ≡ s)

abbrev pub limit : ℕ
limit = 2 ^ 60

write_chunk-IsWriting :
    (w : Writer) (s d : Bytes)
    → IsWriting w s
    → IsChunk d
    → length (s ++ d) < limit
    → IsWriting (write_chunk w d) (s ++ d)
unfolding write_chunk
write_chunk-IsWriting w s d (ds, out, packed, taken, chunks, open_, same) h small =
    let le = measure-le ds chunks in
    let size : length (concat ds) ≡ length s = ap length same in
    let total = length-append s d in
    (
      ds ++ d ∷ [],
      rw (out, packed, next_control-measure ds, chunk_stream-append 1 ds d, append_assoc),
      add64-eq-add w.compressed (length d + 3) (omega arith)
          ∙ (ap (λ k. k + (length d + 3)) packed ∙ sym (measure-append ds d)),
      add64-eq-add w.uncompressed (length d) (omega arith) ∙ omega arith,
      All-append IsChunk ds (d ∷ []) chunks (h, tt),
      open_,
      concat-append ds (d ∷ []) ∙ ap₂ (λ a b. a ++ b) same (append-nil d),
    )

write_loop-IsWriting :
    (fuel : ℕ) (w : Writer) (t s : Bytes)
    → IsWriting w t
    → length s ≤ fuel
    → length (t ++ s) < limit
    → (w' : Writer) × (write_loop fuel w s ≡ ok w') × IsWriting w' (t ++ s)
unfolding write_loop
write_loop-IsWriting fuel w t [] h e small = (w, refl, rw (append-nil t) h)
write_loop-IsWriting zero w t (c ∷ s) h e small = absurd (omega arith)
write_loop-IsWriting (suc fuel) w t (c ∷ s) h e small =
    let amount = min (length (c ∷ s)) chunk_size in
    let part = take amount (c ∷ s) in
    let rest = drop amount (c ∷ s) in
    let long = length-take amount (c ∷ s) in
    let left = length-drop amount (c ∷ s) in
    let total = length-append t (c ∷ s) in
    let total' = length-append t part in
    let whole = append_assoc t part rest ∙ ap (λ u. t ++ u) (take-append-drop amount (c ∷ s)) in
    let h1 = write_chunk-IsWriting w t part h (omega arith, omega arith) (omega arith) in
    let (w', written, h') =
      write_loop-IsWriting fuel (write_chunk w part) (t ++ part) rest h1 (omega arith)
        (rw whole small) in
    (w', written, subst (IsWriting w') whole h')

-- Writing pieces one after the other.
unfoldable pub write_all : Writer → List Bytes → Result XzError Writer
unfolding write
write_all w [] = ok w
write_all w (piece ∷ pieces) = write w piece >>= λ w'. write_all w' pieces

write_all-IsWriting :
    (w : Writer) (t : Bytes) (pieces : List Bytes)
    → IsWriting w t
    → length (t ++ concat pieces) < limit
    → (w' : Writer) × (write_all w pieces ≡ ok w') × IsWriting w' (t ++ concat pieces)
unfolding write_all write
write_all-IsWriting w t [] h small = (w, refl, rw (append-nil t) h)
write_all-IsWriting w t (piece ∷ pieces) h small =
    let whole = append_assoc t piece (concat pieces) in
    let total = length-append (t ++ piece) (concat pieces) in
    let size : length ((t ++ piece) ++ concat pieces) ≡ length (t ++ concat (piece ∷ pieces)) =
      ap length whole in
    let (w1, looped, h1) =
      write_loop-IsWriting (length piece) w t piece h (omega arith) (omega arith) in
    let written =
      if_false w.closed (err written_after_close) (write_loop (length piece) w piece) (ok w1) h.5
        looped in
    let (w', rest, h') = write_all-IsWriting w1 (t ++ piece) pieces h1 (omega arith) in
    (
      w',
      bind_ok (write w piece) w1 (λ w2. write_all w2 pieces) (ok w') written rest,
      subst (IsWriting w') whole h',
    )

-- A stream of the data that are written in `pieces`.
unfoldable pub compress : List Bytes → Result XzError Bytes
unfolding new_writer write_all close
compress pieces = write_all new_writer pieces >>= λ w. ok (close w).output

new_writer-IsWriting : IsWriting new_writer []
unfolding new_writer
new_writer-IsWriting = ([], sym (append-nil stream_start), refl, refl, tt, refl, refl)

close_lem :
    (w : Writer)
    → w.closed ≡ false
    → (close w).output ≡ w.output ++ stream_end w.compressed w.uncompressed
unfolding close
close_lem w h = rw h refl

close-stream_bytes :
    (w : Writer) (s : Bytes)
    → IsWriting w s
    → (ds : List Bytes) × ((close w).output ≡ stream_bytes ds) × All IsChunk ds × (concat ds ≡ s)
close-stream_bytes w s (ds, out, packed, taken, chunks, open_, same) =
    let size : w.uncompressed ≡ length (concat ds) = taken ∙ sym (ap length same) in
    (
      ds,
      close_lem w open_
          ∙ (ap₂ (λ a b. a ++ b) out (ap₂ stream_end packed size)
              ∙ append_assoc stream_start (chunk_stream 1 ds)
                  (stream_end (measure ds) (length (concat ds)))),
      chunks,
      same,
    )

-- It is made of chunks.
pub compress-stream_bytes :
    (pieces : List Bytes)
    → length (concat pieces) < limit
    → (ds : List Bytes) × (compress pieces ≡ ok (stream_bytes ds))
      × All IsChunk ds
      × (concat ds ≡ concat pieces)
unfolding compress
compress-stream_bytes pieces small =
    let (w, written, h) = write_all-IsWriting new_writer [] pieces new_writer-IsWriting small in
    let (ds, out, chunks, same) = close-stream_bytes w (concat pieces) h in
    (
      ds,
      bind_ok (write_all new_writer pieces) w (λ w'. ok (close w').output) (ok (stream_bytes ds))
          written (ap ok out),
      chunks,
      same,
    )
