-- ===== src/Zstd/Examples.antt =====
-- The writer and the reader at concrete data.
use ba.Base.{ℕ, ◌≤◌, ◌≡◌, refl, true, List, [], ◌∷◌, Bytes, arith, concat, codes, ok, err, ◌>>=◌}
use ba.Zstd.Writer.{bad_data, not_a_frame, Writer, raw_block_size, new_writer, close}
use ba.Xxh64.{little_endian}
use ba.Zstd.Reader.{read_header}
use ba.Zstd.Blocks.{Decoder, new_reader, read_all}
use ba.Zstd.Written.{write_all}
use ba.Zstd.RoundTrip.{read_all-write_all}

-- A decoder that refuses every compressed block.
abbrev refusing : Decoder
refusing = record { State = ℕ; fresh = 0; decode = λ s body window at. err bad_data }

abbrev written_pieces : List Bytes
written_pieces = codes "zs" ∷ codes "td" ∷ []

abbrev output : Bytes
output = 0x28 ∷ 0xb5 ∷ 0x2f ∷ 0xfd ∷ 0 ∷ 0x38 ∷ 33 ∷ 0 ∷ 0 ∷ codes "zstd"

write_pieces :
    (write_all new_writer written_pieces >>= close)
    ≡ ok (record { output = output; block = codes "zstd"; closed = true })
unfolding write_all new_writer close raw_block_size
write_pieces = refl

read_pieces : (new_reader refusing output >>= read_all refusing 20 3) ≡ ok (codes "zstd")
unfolding new_reader read_all read_header little_endian raw_block_size
read_pieces = refl

not_zstd : (new_reader refusing (codes "gzip") >>= read_all refusing 20 3) ≡ err not_a_frame
unfolding new_reader read_all read_header little_endian
not_zstd = refl

read_all-write_all_example :
    (w : Writer) × ((write_all new_writer written_pieces >>= close) ≡ ok w)
    × (enough : ℕ) × ((fuel : ℕ)
        → enough ≤ fuel
        → (new_reader refusing w.output >>= read_all refusing fuel 3) ≡ ok (concat written_pieces))
read_all-write_all_example = read_all-write_all refusing 3 written_pieces (omega arith)
