-- ===== src/Xz/Examples.antt =====
-- Checksums, the writer and the reader at concrete data.
use ba.Base.{
  ℕ, ◌≤◌, ◌≡◌, refl, true, false, List, [], ◌∷◌, ◌++◌, some, map, Bytes, arith, concat, codes, take,
  drop, ok, err, ◌>>=◌,
}
use ba.Xxh64.{little_endian}
use ba.Xz.Check.{
  bad_data, check_failed, unexpected_eof, invalid_integer, out_of_fuel, crc32, update_crc64,
}
use ba.Xz.Vli.{vli, read_vli}
use ba.Xz.Writer.{padding}
use ba.Xz.Header.{skip_records, skip_index, skip_stream_padding}
use ba.Xz.Chunks.{Lzma, ChunkReader}
use ba.Xz.Reader.{Reader, new_reader, read_all, read}
use ba.Xz.RoundTrip.{compress_all, read_all-compress_all}
use ba.Xz.Endless.{read-endless}

-- A decoder that refuses every compressed chunk.
abbrev refusing : Lzma
refusing = record {
  State = ℕ;
  fresh = 0;
  reset_state = λ s. s;
  at_start = λ s. 0;
  advance = λ s k. s;
  set_props = λ s v. ok s;
  decode = λ s data_ buf size. err bad_data;
}

abbrev no_sha : Bytes → Bytes
no_sha s = []

-- The check values of both polynomials.
crc32_nine : crc32 (codes "123456789") ≡ 0xcbf43926
unfolding crc32
crc32_nine = refl

crc64_nine : update_crc64 0 (codes "123456789") ≡ 0x995dc9bbdf1939fa
unfolding update_crc64
crc64_nine = refl

-- What xz(1) makes of `hi`, with its usual check.
abbrev hi_xz : Bytes
hi_xz =
    253 ∷ 55 ∷ 122 ∷ 88 ∷ 90 ∷ 0 ∷ 0 ∷ 4 ∷ 230 ∷ 214 ∷ 180 ∷ 70 ∷ 2 ∷ 0 ∷ 33 ∷ 1 ∷ 12 ∷ 0 ∷ 0 ∷ 0
    ∷ 143 ∷ 152 ∷ 65 ∷ 156 ∷ 1 ∷ 0 ∷ 1 ∷ 104 ∷ 105 ∷ 0 ∷ 0 ∷ 0 ∷ 254 ∷ 169 ∷ 56 ∷ 17 ∷ 188 ∷ 202
    ∷ 165 ∷ 72 ∷ 0 ∷ 1 ∷ 26 ∷ 2 ∷ 220 ∷ 46 ∷ 165 ∷ 126 ∷ 31 ∷ 182 ∷ 243 ∷ 125 ∷ 1 ∷ 0 ∷ 0 ∷ 0 ∷ 0
    ∷ 4 ∷ 89 ∷ 90 ∷ []

read_hi : (new_reader refusing no_sha hi_xz >>= read_all refusing no_sha 20 1) ≡ ok (codes "hi")
unfolding new_reader read_all little_endian padding skip_index skip_records skip_stream_padding
read_hi = refl

-- The same with another letter.
abbrev bad_xz : Bytes
bad_xz = take 28 hi_xz ++ b'o' ∷ drop 29 hi_xz

read_bad : (new_reader refusing no_sha bad_xz >>= read_all refusing no_sha 20 9) ≡ err check_failed
unfolding new_reader read_all little_endian padding
read_bad = refl

-- Ends of input and numbers that are too long.
short_stream :
    (new_reader refusing no_sha (take 11 hi_xz) >>= read_all refusing no_sha 20 9)
    ≡ err unexpected_eof
unfolding new_reader
short_stream = refl

vli_three : vli 300 ≡ 172 ∷ 2 ∷ []
unfolding vli
vli_three = refl

padded_vli : read_vli (128 ∷ 0 ∷ []) ≡ err invalid_integer
unfolding read_vli
padded_vli = refl

abbrev two_files : List (List Bytes)
two_files = (codes "one" ∷ codes "two" ∷ []) ∷ (codes "three" ∷ []) ∷ []

read_all-compress_all_example :
    (out : Bytes) × (compress_all two_files ≡ ok out)
    × (enough : ℕ) × ((fuel : ℕ)
        → enough ≤ fuel
        → (new_reader refusing no_sha out >>= read_all refusing no_sha fuel 2)
          ≡ ok (concat (map concat two_files)))
read_all-compress_all_example =
    read_all-compress_all refusing no_sha 2 (codes "one" ∷ codes "two" ∷ [])
      ((codes "three" ∷ []) ∷ []) (omega arith) (omega arith)

abbrev pending : ChunkReader refusing
pending = record {
  input = [];
  dec = 0;
  buf = codes "hi";
  consumed = 1;
  dict_size = 4096;
  saw_props = false;
  saw_dict_init = true;
  finished = true;
  compressed = 5;
}

abbrev in_block : Reader refusing no_sha
in_block = record {
  input = [];
  check = record { kind = 0; size = 0; crc32_sum = 0; crc64_sum = 0; hashed = [] };
  block = some pending;
  finished = false;
}

read-endless_example : read refusing no_sha 1000 0 in_block ≡ err out_of_fuel
read-endless_example = read-endless refusing no_sha in_block pending 1000 refl refl (omega arith)
