-- ===== src/Xxh64.antt =====
-- xxhash64.go: the streaming hash XXH64. `buf[:buffered]` is the list of pending bytes.
pub mod Stream
mod Examples
use Prim.Native.Nat.{bit_xor, min}
use ba.Base.{
  ℕ, zero, suc, ◌+◌, ◌-◌, ◌*◌, ◌/◌, ◌%◌, ◌^◌, List, [], ◌∷◌, ◌++◌, Bytes, leb, ltb, if◌then◌else◌,
  length, take, drop,
}

abbrev pub prime1 : ℕ
prime1 = 0x9e3779b185ebca87

abbrev pub prime2 : ℕ
prime2 = 0xc2b2ae3d27d4eb4f

abbrev pub prime3 : ℕ
prime3 = 0x165667b19e3779f9

abbrev pub prime4 : ℕ
prime4 = 0x85ebca77c2b2ae63

abbrev pub prime5 : ℕ
prime5 = 0x27d4eb2f165667c5

-- uint64 operations
unfoldable pub add : ℕ → ℕ → ℕ
add a b = (a + b) % 2 ^ 64

unfoldable pub mul : ℕ → ℕ → ℕ
mul a b = a * b % 2 ^ 64

-- `bits.RotateLeft64(x, k)`, for k from 1 to 63
unfoldable pub rotate_left : ℕ → ℕ → ℕ
rotate_left x k = x * 2 ^ k % 2 ^ 64 + x / 2 ^ (64 - k)

pub record Lanes : Type 0 where
  pub v1 : ℕ
  pub v2 : ℕ
  pub v3 : ℕ
  pub v4 : ℕ

pub record Hash : Type 0 where
  pub lanes : Lanes
  pub pending : Bytes
  pub total : ℕ

unfoldable pub new_hash : Hash
unfolding add
new_hash = record {
  lanes = record { v1 = add prime1 prime2; v2 = prime2; v3 = 0; v4 = 2 ^ 64 - prime1 };
  pending = [];
  total = 0;
}

-- `xxh64Round`
unfoldable pub mix : ℕ → ℕ → ℕ
unfolding add mul rotate_left
mix acc input = mul (rotate_left (add acc (mul input prime2)) 31) prime1

unfoldable pub merge_mix : ℕ → ℕ → ℕ
unfolding mix
merge_mix acc val = add (mul (bit_xor acc (mix 0 val)) prime1) prime4

-- `binary.LittleEndian.Uint64` and `Uint32`, of the bytes given
unfoldable pub little_endian : Bytes → ℕ
little_endian [] = 0
little_endian (b ∷ s) = b + 256 * little_endian s

unfoldable pub word_at : ℕ → Bytes → ℕ
unfolding little_endian
word_at i stripe = little_endian (take 8 (drop i stripe))

unfoldable pub consume : Lanes → Bytes → Lanes
unfolding mix word_at
consume v stripe = record {
  v1 = mix v.v1 (word_at 0 stripe);
  v2 = mix v.v2 (word_at 8 stripe);
  v3 = mix v.v3 (word_at 16 stripe);
  v4 = mix v.v4 (word_at 24 stripe);
}

-- `for len(data) >= 32`, with fuel: the lanes, and the data left.
unfoldable pub absorb : ℕ → Lanes → Bytes → Lanes × Bytes
absorb zero v data' = (v, data')
absorb (suc fuel) v data' =
    let rest = absorb fuel (consume v (take 32 data')) (drop 32 data') in
    if leb 32 (length data') then rest else (v, data')

unfoldable pub settle : ℕ → Lanes × Bytes → Hash
settle total (v, rest) = record { lanes = v; pending = rest; total = total }

-- A full stripe is consumed at once, and the loop takes the rest.
unfoldable pub top_up : ℕ → Lanes → Bytes → Bytes → Hash
unfolding settle absorb
top_up total v filled rest =
    if ltb (length filled) 32
    then record { lanes = v; pending = filled; total = total }
    else settle total (absorb (length rest) (consume v filled) rest)

unfoldable pub write : Hash → Bytes → Hash
unfolding top_up settle absorb add
write h data' =
    let total = add h.total (length data') in
    let n = min (32 - length h.pending) (length data') in
    if ltb 0 (length h.pending)
    then top_up total h.lanes (h.pending ++ take n data') (drop n data')
    else settle total (absorb (length data') h.lanes data')

-- `for len(tail) >= 8`, then the four bytes, then the single ones
unfoldable pub tail_words : ℕ → ℕ → Bytes → ℕ × Bytes
unfolding mix little_endian
tail_words zero acc tail = (acc, tail)
tail_words (suc fuel) acc tail =
    let acc' =
      add (mul (rotate_left (bit_xor acc (mix 0 (little_endian (take 8 tail)))) 27) prime1)
        prime4 in
    let rest = tail_words fuel acc' (drop 8 tail) in
    if leb 8 (length tail) then rest else (acc, tail)

unfoldable pub tail_half : ℕ × Bytes → ℕ × Bytes
unfolding little_endian add mul rotate_left
tail_half (acc, tail) =
    if leb 4 (length tail)
    then (
      add (mul (rotate_left (bit_xor acc (mul (little_endian (take 4 tail)) prime1)) 23) prime2)
          prime3,
      drop 4 tail,
    )
    else (acc, tail)

unfoldable pub tail_bytes : ℕ → Bytes → ℕ
unfolding mul rotate_left
tail_bytes acc [] = acc
tail_bytes acc (b ∷ tail) =
    tail_bytes (mul (rotate_left (bit_xor acc (mul b prime5)) 11) prime1) tail

unfoldable pub avalanche : ℕ → ℕ
unfolding mul
avalanche acc =
    let a = mul (bit_xor acc (acc / 2 ^ 33)) prime2 in
    let b = mul (bit_xor a (a / 2 ^ 29)) prime3 in bit_xor b (b / 2 ^ 32)

unfoldable pub converge : Hash → ℕ
unfolding merge_mix
converge h =
    let v = h.lanes in
    let acc =
      add (add (add (rotate_left v.v1 1) (rotate_left v.v2 7)) (rotate_left v.v3 12))
        (rotate_left v.v4 18) in
    if leb 32 h.total
    then merge_mix (merge_mix (merge_mix (merge_mix acc v.v1) v.v2) v.v3) v.v4
    else prime5

unfoldable pub finish_tail : ℕ × Bytes → ℕ
unfolding tail_bytes avalanche
finish_tail (acc, tail) = avalanche (tail_bytes acc tail)

unfoldable pub sum64 : Hash → ℕ
unfolding converge tail_words tail_half finish_tail add
sum64 h =
    finish_tail (tail_half (tail_words (length h.pending) (add (converge h) h.total) h.pending))
