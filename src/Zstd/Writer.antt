-- ===== src/Zstd/Writer.antt =====
-- `zstdWriter`. Writing to the buffered output does not fail here. `|` of bits that do not overlap is
-- written as a sum.
use ba.Base.{
  ℕ, zero, suc, ◌+◌, ◌-◌, ◌*◌, ◌/◌, ◌%◌, min, Bool, true, false, ◌&&◌, [], ◌∷◌, ◌++◌, Bytes, ltb,
  ◌==◌, if◌then◌else◌, length, take, drop, Result, ok, err, ◌>>=◌,
}

pub data ZstdError : Type 0 where
  end_of_input unexpected_eof not_a_frame invalid_header unsupported_window dictionary : ZstdError
  bad_data invalid_block mismatch written_after_close too_large out_of_fuel : ZstdError

unfoldable pub raw_block_size : ℕ
raw_block_size = 131072

pub record Writer : Type 0 where
  pub output : Bytes
  pub block : Bytes
  pub closed : Bool

abbrev pub frame_magic : Bytes
frame_magic = 0x28 ∷ 0xb5 ∷ 0x2f ∷ 0xfd ∷ []

unfoldable pub new_writer : Writer
new_writer = record { output = frame_magic ++ 0 ∷ 0x38 ∷ []; block = []; closed = false }

unfoldable pub is_all : ℕ → Bytes → Bool
is_all c [] = true
is_all c (b ∷ s) = (b == c) && is_all c s

-- `len(data) > 0 && zstdUniform(data)`
unfoldable pub is_uniform : Bytes → Bool
unfolding is_all
is_uniform [] = false
is_uniform (c ∷ s) = is_all c s

-- Three bytes of header: whether the block is the last, its type and its length.
unfoldable pub block_header : ℕ → ℕ → Bool → Bytes
block_header size type last =
    let header = size * 8 + type * 2 + (if last then 1 else 0) in
    header % 256 ∷ header / 256 % 256 ∷ header / 65536 % 256 ∷ []

unfoldable pub block_bytes : Bytes → Bool → Bytes
unfolding block_header is_uniform
block_bytes s last =
    if is_uniform s
    then block_header (length s) 1 last ++ take 1 s
    else block_header (length s) 0 last ++ s

unfoldable pub write_block : Writer → Bytes → Bool → Result ZstdError Writer
unfolding block_bytes
write_block w s last =
    if ltb raw_block_size (length s)
    then err too_large
    else ok (record w { output = w.output ++ block_bytes s last })

unfoldable pub emptied : Writer → Writer
emptied w = record w { block = [] }

-- A full block is written once more data follow.
unfoldable pub spill : Writer → Bytes → Result ZstdError Writer
unfolding write_block emptied
spill w rest =
    if (length w.block == raw_block_size) && ltb 0 (length rest)
    then (write_block w w.block false >>= λ w'. ok (emptied w'))
    else ok w

-- The loop of `Write`, by the rounds left.
unfoldable pub write_loop : ℕ → Writer → Bytes → Result ZstdError Writer
unfolding spill
write_loop fuel w [] = ok w
write_loop zero w (c ∷ s) = err out_of_fuel
write_loop (suc fuel) w (c ∷ s) =
    let amount = min (raw_block_size - length w.block) (length (c ∷ s)) in
    let rest = drop amount (c ∷ s) in
    spill (record w { block = w.block ++ take amount (c ∷ s) }) rest >>= λ w'.
    write_loop fuel w' rest

unfoldable pub write : Writer → Bytes → Result ZstdError Writer
unfolding write_loop
write w s = if w.closed then err written_after_close else write_loop (length s + 1) w s

unfoldable pub close : Writer → Result ZstdError Writer
unfolding write_block
close w = if w.closed then ok w else write_block (record w { closed = true }) w.block true
