-- ===== src/Tr/Sets/Laws.antt =====
-- What the tables and the complement of tr.go hold.
use ba.Base.{
  ℕ, zero, suc, ◌+◌, ◌<◌, ◌≡◌, refl, sym, Bool, true, false, not, [], ◌∷◌, ◌++◌, append_assoc,
  append-nil, Bytes, arith, if◌then◌else◌, contains, select, leb, ltb, ◌&&◌,
}
use mathlib.Core.Path.{fun_ext}
use native.Mathlib.Decide.{ℕ_discrete}
use ba.Tr.Sets.{Table, mark, mark_all, in_set, for_bytes, add_class, complement_set}

mark_all-eq :
    (set : Bytes) (t : Table) (c : ℕ) → mark_all set t c ≡ (if contains set c then true else t c)
unfolding mark_all
mark_all-eq [] t c = refl
mark_all-eq (b ∷ set) t c = ground (arith, mark_all-eq set (mark t b) c)

-- The table of a set holds exactly the members of the set.
pub in_set-contains : (set : Bytes) (c : ℕ) → in_set set c ≡ contains set c
unfolding in_set
in_set-contains set c = ground (arith, mark_all-eq set (λ _. false) c)

-- The bytes from `c` on, `rounds` many.
unfoldable pub bytes_from : ℕ → ℕ → Bytes
bytes_from zero c = []
bytes_from (suc rounds) c = c ∷ bytes_from rounds (c + 1)

unfoldable pub all_bytes : Bytes
unfolding bytes_from
all_bytes = bytes_from 256 0

for_bytes-select :
    (pred : ℕ → Bool) (rounds c : ℕ) (out : Bytes)
    → for_bytes rounds c (λ b out. if pred b then out ++ b ∷ [] else out) out
      ≡ out ++ select pred (bytes_from rounds c)
unfolding for_bytes bytes_from
for_bytes-select pred zero c out = sym (append-nil out)
for_bytes-select pred (suc rounds) c out = ground (
  arith,
  for_bytes-select pred rounds (c + 1) out,
  for_bytes-select pred rounds (c + 1) (out ++ c ∷ []),
  append_assoc out (c ∷ []) (select pred (bytes_from rounds (c + 1))),
)

pub contains-select :
    (pred : ℕ → Bool) (rounds c b : ℕ)
    → contains (select pred (bytes_from rounds c)) b
      ≡ (if leb c b && ltb b (c + rounds) then pred b else false)
unfolding bytes_from
contains-select pred zero c b = ground arith
contains-select pred (suc rounds) c b = elim (ℕ_discrete c b) [
  | yes e ↦ rw e (ground (arith, contains-select pred rounds (b + 1) b))
  | no n ↦ ground (arith, contains-select pred rounds (c + 1) b)
]

-- The members of a class are the bytes that pass its test, in ascending order.
pub add_class-select : (pred : ℕ → Bool) → add_class pred ≡ select pred all_bytes
unfolding add_class all_bytes
add_class-select pred = for_bytes-select pred 256 0 []

pub complement_set-select :
    (set : Bytes) → complement_set set ≡ select (λ b. not (contains set b)) all_bytes
unfolding complement_set all_bytes
complement_set-select set =
    rw (← fun_ext (in_set-contains set)) (for_bytes-select (λ c. not (in_set set c)) 256 0 [])

contains-all_bytes :
    (pred : ℕ → Bool) (b : ℕ) → b < 256 → contains (select pred all_bytes) b ≡ pred b
unfolding all_bytes
contains-all_bytes pred b h = rw contains-select (ground arith)

-- Of `tr -c`: the complement of a set holds exactly the bytes that the set lacks.
pub contains-complement_set :
    (set : Bytes) (b : ℕ) → b < 256 → contains (complement_set set) b ≡ not (contains set b)
contains-complement_set set b h = rw complement_set-select (contains-all_bytes _ b h)

-- Of the classes that are given by a test: a byte is a member exactly if it passes the test.
pub contains-add_class : (pred : ℕ → Bool) (b : ℕ) → b < 256 → contains (add_class pred) b ≡ pred b
contains-add_class pred b h = rw add_class-select (contains-all_bytes pred b h)
