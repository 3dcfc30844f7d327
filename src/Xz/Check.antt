-- ===== src/Xz/Check.antt =====
-- The checksums of xz_raw.go. `hash/crc32` is the reflected IEEE polynomial; SHA-256 is a parameter.
use ba.Base.{
  ℕ, zero, suc, ◌-◌, ◌/◌, ◌%◌, ◌^◌, Bool, true, [], ◌∷◌, Option, none, some, Bytes, ◌++◌, leb, ◌==◌,
  if◌then◌else◌, bytes_eq, Result, ok, err,
}
use Prim.Native.Nat.{bit_xor}

pub data XzError : Type 0 where
  unexpected_eof unsupported_stream unsupported_flags invalid_header : XzError
  invalid_block_header invalid_block_flags unsupported_chain invalid_properties : XzError
  unsupported_filter : ℕ → XzError
  unsupported_check : ℕ → XzError
  invalid_dictionary invalid_integer invalid_index invalid_footer check_failed : XzError
  invalid_control no_dictionary no_properties bad_data written_after_close out_of_fuel : XzError

-- `binary.LittleEndian.PutUint32` and its like, for `n` bytes.
unfoldable pub put_little : ℕ → ℕ → Bytes
put_little zero v = []
put_little (suc n) v = v % 256 ∷ put_little n (v / 256)

-- An entry of a table of a reflected polynomial, after `n` of the 8 rounds.
unfoldable pub shift_bits : ℕ → ℕ → ℕ → ℕ
shift_bits polynomial zero v = v
shift_bits polynomial (suc n) v =
    shift_bits polynomial n (if v % 2 == 1 then bit_xor (v / 2) polynomial else v / 2)

unfoldable pub crc_bytes : ℕ → ℕ → Bytes → ℕ
unfolding shift_bits
crc_bytes polynomial sum [] = sum
crc_bytes polynomial sum (b ∷ s) =
    crc_bytes polynomial (bit_xor (shift_bits polynomial 8 (bit_xor (sum % 256) b)) (sum / 256)) s

-- `crc32.Update`
unfoldable pub update_crc32 : ℕ → Bytes → ℕ
unfolding crc_bytes
update_crc32 sum s = 2 ^ 32 - 1 - crc_bytes 0xedb88320 (2 ^ 32 - 1 - sum) s

unfoldable pub crc32 : Bytes → ℕ
unfolding update_crc32
crc32 s = update_crc32 0 s

-- `updateCRC64`
unfoldable pub update_crc64 : ℕ → Bytes → ℕ
unfolding crc_bytes
update_crc64 sum s = 2 ^ 64 - 1 - crc_bytes 0xc96c5795d7870f42 (2 ^ 64 - 1 - sum) s

-- `xzChecker`; for SHA-256 the data since the last reset stand for the state of the digest.
pub record Checker : Type 0 where
  pub kind : ℕ
  pub size : ℕ
  pub crc32_sum : ℕ
  pub crc64_sum : ℕ
  pub hashed : Bytes

unfoldable pub check_size : ℕ → Option ℕ
check_size kind =
    if kind == 0
    then some 0
    else if leb kind 3
    then some 4
    else if leb kind 6
    then some 8
    else if leb kind 9
    then some 16
    else if leb kind 12
    then some 32
    else if leb kind 15
    then some 64
    else none

abbrev pub checker_of : ℕ → Option ℕ → Result XzError Checker
checker_of kind none = err (unsupported_check kind)
checker_of kind (some size) =
    ok (record { kind = kind; size = size; crc32_sum = 0; crc64_sum = 0; hashed = [] })

unfoldable pub new_checker : ℕ → Result XzError Checker
unfolding check_size
new_checker kind = checker_of kind (check_size kind)

unfoldable pub reset_checker : Checker → Checker
reset_checker c = record c { crc32_sum = 0; crc64_sum = 0; hashed = [] }

unfoldable pub add_checked : Checker → Bytes → Checker
unfolding update_crc32 update_crc64
add_checked c s =
    if c.kind == 1
    then record c { crc32_sum = update_crc32 c.crc32_sum s }
    else if c.kind == 4
    then record c { crc64_sum = update_crc64 c.crc64_sum s }
    else if c.kind == 10
    then record c { hashed = c.hashed ++ s }
    else c

-- What the data of a block must be followed by, if it is a check that is computed.
unfoldable pub computed_check : (Bytes → Bytes) → Checker → Option Bytes
unfolding put_little
computed_check sha256 c =
    if c.kind == 1
    then some (put_little 4 c.crc32_sum)
    else if c.kind == 4
    then some (put_little 8 c.crc64_sum)
    else if c.kind == 10
    then some (sha256 c.hashed)
    else none

abbrev pub agrees : Option Bytes → Bytes → Bool
agrees none stored = true
agrees (some computed) stored = bytes_eq computed stored

unfoldable pub verify : (Bytes → Bytes) → Checker → Bytes → Bool
unfolding computed_check
verify sha256 c stored = agrees (computed_check sha256 c) stored
