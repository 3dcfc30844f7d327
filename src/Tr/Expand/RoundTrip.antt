-- ===== src/Tr/Expand/RoundTrip.antt =====
-- SET specifications written item by item, and what `expandSet` reads back from them.
use ba.Base.{
  ℕ, zero, suc, ◌+◌, ◌-◌, ◌/◌, ◌%◌, ◌≤◌, ◌<◌, ◌≡◌, ◌≢◌, refl, List, [], ◌∷◌, ◌++◌, append_assoc,
  append-nil, some, Bytes, arith, length, take, drop, All, concat, map, ap, length-append,
}
use ba.Tr.Sets.{expand_class}
use ba.Tr.Expand.{
  expanded, Step, emit, octal_run, octal_value, octal_step, escape_step, range_step, class_step,
  class_found, class_at, plain_step, round, span, index_close, expand_loop, expand_set,
}

-- A byte as three octal digits, a range, a class with its members.
pub data Item : Type 0 where
  literal : ℕ → Item
  range : ℕ → ℕ → Item
  class : Bytes → Bytes → Item

abbrev pub print : Item → Bytes
print (literal b) = b'\\' ∷ (b'0' + b / 64) ∷ (b'0' + b / 8 % 8) ∷ (b'0' + b % 8) ∷ []
print (range lo hi) = lo ∷ b'-' ∷ hi ∷ []
print (class name members) = b'[' ∷ b':' ∷ (name ++ b':' ∷ b']' ∷ [])

abbrev pub denote : Item → Bytes
denote (literal b) = b ∷ []
denote (range lo hi) = span (hi + 1 - lo) lo
denote (class name members) = members

abbrev pub IsProper : Item → Type 0
IsProper (literal b) = b < 256
IsProper (range lo hi) = (lo ≤ hi) × (lo ≢ b'\\') × (hi ≢ b'\\')
IsProper (class name members) = (expand_class name ≡ some members) × All (λ c. c ≢ b']') name

-- The step at the front of a text; a text that has ended emits nothing.
abbrev front : Bytes → Step
front [] = emit [] []
front (c ∷ s) = round c s

front-literal :
    (b : ℕ) (rest : Bytes) → b < 256 → front (print (literal b) ++ rest) ≡ emit (b ∷ []) rest
unfolding round class_at plain_step escape_step octal_step octal_run octal_value
front-literal b rest h = ground arith

front-range :
    (lo hi : ℕ) (rest : Bytes)
    → IsProper (range lo hi)
    → front (print (range lo hi) ++ rest) ≡ emit (span (hi + 1 - lo) lo) rest
unfolding round class_at plain_step range_step
front-range lo hi rest h = ground arith

index_close-append :
    (c : ℕ) (name rest : Bytes)
    → All (λ d. d ≢ b']') name
    → index_close (c ∷ (name ++ b':' ∷ b']' ∷ rest)) ≡ some (suc (length name))
unfolding index_close
index_close-append c [] rest hs = ground arith
index_close-append c (d ∷ name) rest hs = ground (arith, index_close-append d name rest hs.1)

take-append : (name rest : Bytes) → take (length name) (name ++ rest) ≡ name
take-append [] rest = refl
take-append (c ∷ name) rest = ap (λ t. c ∷ t) (take-append name rest)

drop_close :
    (name rest : Bytes) → drop (length name + 2) ((name ++ b':' ∷ b']' ∷ []) ++ rest) ≡ rest
drop_close [] rest = refl
drop_close (c ∷ name) rest =
    let e : suc (length name) + 2 ≡ suc (length name + 2) = omega arith in
    rw e (drop_close name rest)

front-class :
    (name members rest : Bytes)
    → IsProper (class name members)
    → front (print (class name members) ++ rest) ≡ emit members rest
front-class name members rest (known, lacks) =
    rw (closes, steps, known) (unfold class_found in refl)
  where
    text : Bytes
    text = b'[' ∷ b':' ∷ ((name ++ b':' ∷ b']' ∷ []) ++ rest)

    closes : front text ≡ class_step text (suc (suc (length name)))
    closes =
        unfold round class_at index_close in
        ground (
          arith,
          index_close-append b':' name rest lacks,
          append_assoc name (b':' ∷ b']' ∷ []) rest,
        )

    steps : class_step text (suc (suc (length name))) ≡ class_found name rest (expand_class name)
    steps =
        unfold class_step in
        ground (
          arith,
          take-append name (b':' ∷ b']' ∷ rest),
          append_assoc name (b':' ∷ b']' ∷ []) rest,
          drop_close name rest,
        )

front-print :
    (item : Item) (rest : Bytes)
    → IsProper item
    → front (print item ++ rest) ≡ emit (denote item) rest
front-print (literal b) rest h = front-literal b rest h
front-print (range lo hi) rest h = front-range lo hi rest h
front-print (class name members) rest h = front-class name members rest h

abbrev pub print_all : List Item → Bytes
print_all items = concat (map print items)

abbrev pub denote_all : List Item → Bytes
denote_all items = concat (map denote items)

-- One round at the front of a text, given what the loop does on the rest.
expand_loop_round :
    (fuel : ℕ) (s bytes rest out d : Bytes)
    → suc (length rest) ≤ length s
    → length s ≤ fuel
    → front s ≡ emit bytes rest
    → ((f : ℕ) (o : Bytes) → length rest ≤ f → expand_loop f rest o ≡ expanded (o ++ d))
    → expand_loop fuel s out ≡ expanded (out ++ (bytes ++ d))
expand_loop_round fuel [] bytes rest out d shorter enough e ih = elim shorter [ ]
expand_loop_round zero (c ∷ s) bytes rest out d shorter enough e ih = elim enough [ ]
expand_loop_round (suc fuel) (c ∷ s) bytes rest out d shorter enough e ih =
    unfold expand_loop in ground (arith, ih fuel (out ++ bytes), append_assoc out bytes d)

length-print : (item : Item) → 1 ≤ length (print item)
length-print (literal b) = omega arith
length-print (range lo hi) = omega arith
length-print (class name members) = omega arith

expand_loop-print :
    (items : List Item) (fuel : ℕ) (out : Bytes)
    → All IsProper items
    → length (print_all items) ≤ fuel
    → expand_loop fuel (print_all items) out ≡ expanded (out ++ denote_all items)
expand_loop-print [] zero out _ _ = unfold expand_loop in rw append-nil
expand_loop-print [] (suc fuel) out _ _ = unfold expand_loop in rw append-nil
expand_loop-print (item ∷ items) fuel out (h, hs) enough =
    expand_loop_round fuel (print item ++ print_all items) (denote item) (print_all items) out
      (denote_all items)
      (omega (arith, length-append (print item) (print_all items), length-print item)) enough
      (front-print item (print_all items) h) (λ f o. expand_loop-print items f o hs)

-- A specification that is written item by item (bytes as octal escapes, ranges in order, known
-- classes) is expanded to the bytes of its items, one item after the other.
pub expand_set-print :
    (items : List Item)
    → All IsProper items
    → expand_set (print_all items) ≡ expanded (denote_all items)
unfolding expand_set
expand_set-print items h = expand_loop-print items _ [] h (omega arith)
