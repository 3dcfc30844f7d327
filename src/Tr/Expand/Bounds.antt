-- ===== src/Tr/Expand/Bounds.antt =====
-- Each round of `expandSet` consumes a byte, so the loop ends; every byte that it emits is a byte.
use ba.Base.{
  Bool, true, false, not, ◌&&◌, inl, inr, Bool-cases, take, leb, ◌==◌, ℕ, zero, suc, ◌+◌, ◌-◌, ◌≤◌,
  ◌≢◌, [], ◌∷◌, ◌++◌, Option, none, some, Bytes, arith, length, drop, length-drop, if◌then◌else◌,
  ltb,
}
use ba.Tr.Sets.{expand_class}
use ba.Tr.Expand.{
  panic, reverse_order, out_of_fuel, Step, emit, stop, is_octal, octal_step, class_found, span,
  octal_run, escape_step, range_step, class_step, class_at, plain_step, round, expand_loop,
  expand_set,
}

length-octal_run : (limit : ℕ) (s : Bytes) → length (octal_run limit s).1 ≤ length s
unfolding octal_run
length-octal_run zero s = omega arith
length-octal_run (suc limit) [] = omega arith
length-octal_run (suc limit) (c ∷ s) = ground (arith, length-octal_run limit s)

-- The step leaves `n` bytes at most.
abbrev Leaves : ℕ → Step → Type 0
Leaves n (emit bytes rest) = length rest ≤ n
Leaves n (stop e) = e ≢ out_of_fuel

escape_step-Leaves : (c : ℕ) (s : Bytes) → Leaves (length s) (escape_step c s)
unfolding escape_step octal_step
escape_step-Leaves c s = elim (Bool-cases (is_octal c)) [
  | inl e ↦ rw e (length-octal_run 2 s)
  | inr e ↦ rw e (omega arith)
]

range_step-Leaves : (c : ℕ) (s : Bytes) → Leaves (length s) (range_step c s)
unfolding range_step
range_step-Leaves c [] = omega arith
range_step-Leaves c (d ∷ []) = omega arith
range_step-Leaves c (d ∷ hi ∷ rest) = ranges ((d == b'-') && not (hi == b'\\')) (leb c hi)
  where
    ranges :
        (dash order : Bool)
        → Leaves (suc (suc (length rest))) (
            if dash
            then if order
              then emit (span (hi + 1 - c) c) rest
              else stop (reverse_order (c ∷ d ∷ hi ∷ []))
            else emit (c ∷ []) (d ∷ hi ∷ rest))
    ranges true true = omega arith
    ranges true false = λ e. cc
    ranges false order = omega arith

class_step-Leaves : (c : ℕ) (s : Bytes) (end : ℕ) → Leaves (length s) (class_step (c ∷ s) end)
unfolding class_step
class_step-Leaves c s end = found (ltb end 2) (expand_class class)
  where
    class : Bytes
    class = take (end - 2) (drop 2 (c ∷ s))

    shorter : length (drop (end + 2) (c ∷ s)) ≤ length s
    shorter = omega (arith, length-drop (end + 2) (c ∷ s))

    found :
        (short : Bool) (bytes : Option Bytes)
        → Leaves
            (length s)
            (if short then stop panic else class_found class (drop (end + 2) (c ∷ s)) bytes)
    found true bytes = λ e. cc
    found false none = unfold class_found in λ e. cc
    found false (some bytes) = unfold class_found in shorter

plain_step-Leaves : (c : ℕ) (s : Bytes) → Leaves (length s) (plain_step c s)
unfolding plain_step
plain_step-Leaves c [] = range_step-Leaves c []
plain_step-Leaves c (d ∷ s) = elim (Bool-cases (c == b'\\')) [
  | inl e ↦ rw e (weaken (escape_step d s) (escape_step-Leaves d s))
  | inr e ↦ rw e (range_step-Leaves c (d ∷ s))
]
  where
    weaken : (t : Step) → Leaves (length s) t → Leaves (suc (length s)) t
    weaken (emit bytes rest) h = omega arith
    weaken (stop e) h = h

round-Leaves : (c : ℕ) (s : Bytes) → Leaves (length s) (round c s)
unfolding round
round-Leaves c s =
    elim (class_at c s)
      as (λ o.
        Leaves (length s) (elim o [ some end ↦ class_step (c ∷ s) end | none ↦ plain_step c s ])) [
          | some end ↦ class_step-Leaves c s end
          | none ↦ plain_step-Leaves c s
        ]

expand_loop_ends :
    (fuel : ℕ) (s out : Bytes) → length s ≤ fuel → expand_loop fuel s out ≢ out_of_fuel
unfolding expand_loop
expand_loop_ends zero [] out h = λ e. cc
expand_loop_ends (suc fuel) [] out h = λ e. cc
expand_loop_ends zero (c ∷ s) out h = elim h [ ]
expand_loop_ends (suc fuel) (c ∷ s) out h =
    go (round c s) (round-Leaves c s) (expand_loop_ends fuel)
  where
    go :
        (t : Step)
        → Leaves (length s) t
        → ((r o : Bytes) → length r ≤ fuel → expand_loop fuel r o ≢ out_of_fuel)
        → (elim t [ emit bytes rest ↦ expand_loop fuel rest (out ++ bytes) | stop e ↦ e ])
          ≢ out_of_fuel
    go (emit bytes rest) l ih = ih rest (out ++ bytes) (omega arith)
    go (stop e) l ih = l

-- `expandSet` ends on every text: a round for each byte is enough.
pub expand_set_ends : (s : Bytes) → expand_set s ≢ out_of_fuel
unfolding expand_set
expand_set_ends s = expand_loop_ends (length s) s [] (omega arith)
