-- ===== src/Xxh64/Examples.antt =====
-- Known hashes, and the theorems at concrete inputs.
use ba.Base.{◌≡◌, refl, [], ◌∷◌, codes, ◌<◌, length, arith}
use ba.Xxh64.{new_hash, write, sum64}
use ba.Xxh64.Stream.{write-write, write_all, sum64-write_all}

empty : sum64 new_hash ≡ 0xef46db3751d8e999
unfolding sum64 new_hash
empty = refl

abc : sum64 (write new_hash (codes "abc")) ≡ 0x44bc2cf5ad770999
unfolding sum64 new_hash write
abc = refl

write-write_example :
    (write (write new_hash (codes "a")) (codes "bc") ≡ write new_hash (codes "abc"))
    × (length (write new_hash (codes "a")).pending < 32)
unfolding new_hash
write-write_example = write-write new_hash (codes "a") (codes "bc") (omega arith)

sum64-write_all_example :
    sum64 (write_all new_hash (codes "ab" ∷ codes "" ∷ codes "c" ∷ []))
    ≡ sum64 (write new_hash (codes "abc"))
unfolding new_hash
sum64-write_all_example =
    sum64-write_all (codes "ab" ∷ codes "" ∷ codes "c" ∷ []) new_hash (omega arith) (omega arith)
