-- ===== src/Tail/Lines.antt =====
-- `tail -n`: the ring buffer holds the last lines, and is written from the oldest on.
use ba.Base.{
  ℕ, zero, suc, ◌+◌, ◌-◌, ◌%◌, ◌≤◌, ◌<◌, ◌≡◌, refl, sym, ap, ◌∙◌, Bool, true, false, List, [], ◌∷◌,
  ◌++◌, append_assoc, append-nil, Bytes, arith, concat, length, take, drop, set, get_or,
  length-append, length-drop, length-set, length-take, drop-append, drop-add, drop_all, take_all,
  drop-nil, ap₂, if◌then◌else◌, inl, inr, ◌⊎◌,
}
use native.Mathlib.Nat.{mod-eq_of_lt, mod-eq-sub-mod}
use native.Mathlib.Decide.{dec_lt}
use ba.Base.Lines.{read_lines}
use ba.Tail.{Ring, empty, keep, keep_all, write_ring, lines_from, emit_last_lines}
use ba.Tail.Chunks.{last, last-append}

-- The lines that a ring holds, the oldest first.
abbrev pub contents : Ring → List Bytes
contents r = drop r.head r.ring ++ take r.head r.ring

-- Not full: from index 0 on, with room. Full: `n` lines, with the oldest inside.
abbrev pub IsKept : ℕ → Ring → Type 0
IsKept n r =
    ((r.full ≡ false) × (r.head ≡ 0) × (length r.ring < n))
    ⊎ ((r.full ≡ true) × (length r.ring ≡ n) × (r.head < n))

take-suc-set :
    (xs : List Bytes) (i : ℕ) (v : Bytes)
    → i < length xs
    → take (suc i) (set xs i v) ≡ take i xs ++ v ∷ []
take-suc-set [] i v h = elim h [ ]
take-suc-set (x ∷ xs) zero v h = refl
take-suc-set (x ∷ xs) (suc i) v h = ap (λ t. x ∷ t) (take-suc-set xs i v (omega arith))

drop-suc-set : (xs : List Bytes) (i : ℕ) (v : Bytes) → drop (suc i) (set xs i v) ≡ drop (suc i) xs
drop-suc-set [] i v = refl
drop-suc-set (x ∷ xs) zero v = refl
drop-suc-set (x ∷ xs) (suc i) v = drop-suc-set xs i v

-- A list turned round at `h`, with a new last item in place of its first.
turn :
    (xs : List Bytes) (h n : ℕ) (v : Bytes)
    → length xs ≡ n
    → h < n
    → last n ((drop h xs ++ take h xs) ++ v ∷ []) ≡ drop (suc h) xs ++ (take h xs ++ v ∷ [])
turn xs h n v e lt =
    let one : length ((drop h xs ++ take h xs) ++ v ∷ []) - n ≡ 1 = omega (
      arith,
      length-append (drop h xs ++ take h xs) (v ∷ []),
      length-append (drop h xs) (take h xs),
      length-drop h xs,
      length-take h xs,
    ) in
    let s : 1 + h ≡ suc h = omega arith in
    rw (
      one,
      append_assoc,
      drop-append 1 (drop h xs) (take h xs ++ v ∷ []) (omega (arith, length-drop h xs)),
      drop-add h 1 xs,
      s,
    )

-- The ring behind the write, turned round at the next index.
turned :
    (xs : List Bytes) (h n : ℕ) (v : Bytes)
    → length xs ≡ n
    → h < n
    → (let h' = (h + 1) % n in drop h' (set xs h v) ++ take h' (set xs h v))
      ≡ drop (suc h) xs ++ (take h xs ++ v ∷ [])
turned xs h n v e lt = elim (dec_lt (h + 1) n) [
  | yes p ↦
      let s : (h + 1) % n ≡ suc h = mod-eq_of_lt p ∙ omega arith in
      rw (s, drop-suc-set xs h v, take-suc-set xs h v (omega arith))
  | no p ↦
      let s : h + 1 ≡ n = omega arith in
      let z : (h + 1) % n ≡ 0 = omega (
        arith,
        mod-eq-sub-mod {n = h + 1} {m = n} (omega arith),
        mod-eq_of_lt {n = h + 1 - n} {m = n} (omega arith),
      ) in
      rw (z, append-nil, drop_all (suc h) xs (omega arith))
        (sym (take_all (suc h) (set xs h v) (omega (arith, length-set xs h v)))
          ∙ take-suc-set xs h v (omega arith))
]

module _ (n : ℕ) (r : Ring) (line : Bytes) (pos : 0 < n) where
  keep-IsKept : IsKept n r → IsKept n (keep n r line)
  unfolding keep
  keep-IsKept k = ground (arith, length-append r.ring (line ∷ []), length-set r.ring r.head line)

  contents-keep : IsKept n r → contents (keep n r line) ≡ last n (contents r ++ line ∷ [])
  unfolding keep
  contents-keep (inl (e, h, room)) =
      let all : length ((r.ring ++ []) ++ line ∷ []) - n ≡ 0 =
        omega (arith, length-append (r.ring ++ []) (line ∷ []), length-append r.ring []) in
      rw (e, h, all) (ground (arith, append-nil r.ring, append-nil (r.ring ++ line ∷ []), h))
  contents-keep (inr (e, size, inside)) =
      rw (e, size, turned r.ring r.head n line size inside)
        (sym (turn r.ring r.head n line size inside))

keep_all-last :
    (n : ℕ) (r : Ring) (lines : List Bytes)
    → 0 < n
    → IsKept n r
    → IsKept n (keep_all n r lines) × (contents (keep_all n r lines) ≡ last n (contents r ++ lines))
unfolding keep_all
keep_all-last n r [] pos k =
    let fits : length (contents r) ≤ n = omega (
      arith,
      length-append (drop r.head r.ring) (take r.head r.ring),
      length-drop r.head r.ring,
      length-take r.head r.ring,
    ) in
    let all : length (contents r) - n ≡ 0 = omega arith in (k, rw (append-nil, all))
keep_all-last n r (line ∷ lines) pos k =
    let (k', e) = keep_all-last n (keep n r line) lines pos (keep-IsKept n r line pos k) in
    (
      k',
      e
          ∙ (rw (contents-keep n r line pos k) (
              last-append n (contents r ++ line ∷ []) lines
              ∙ ap (last n) (append_assoc (contents r) (line ∷ []) lines))),
    )

get_or-append_left :
    (xs ys : List Bytes) (i : ℕ) → i < length xs → get_or (xs ++ ys) i [] ≡ get_or xs i []
get_or-append_left [] ys i h = elim h [ ]
get_or-append_left (x ∷ xs) ys zero h = refl
get_or-append_left (x ∷ xs) ys (suc i) h = get_or-append_left xs ys i (omega arith)

get_or-append_right :
    (xs ys : List Bytes) (i : ℕ)
    → length xs ≤ i
    → get_or (xs ++ ys) i [] ≡ get_or ys (i - length xs) []
get_or-append_right [] ys i h = ap (λ k. get_or ys k []) (omega arith)
get_or-append_right (x ∷ xs) ys zero h = elim h [ ]
get_or-append_right (x ∷ xs) ys (suc i) h =
    get_or-append_right xs ys i (omega arith) ∙ ap (λ k. get_or ys k []) (omega arith)

get_or-drop : (xs : List Bytes) (h i : ℕ) → get_or (drop h xs) i [] ≡ get_or xs (h + i) []
get_or-drop xs zero i = ap (λ k. get_or xs k []) (omega arith)
get_or-drop [] (suc h) i = refl
get_or-drop (x ∷ xs) (suc h) i =
    let e : suc h + i ≡ suc (h + i) = omega arith in rw e (get_or-drop xs h i)

get_or-take : (xs : List Bytes) (h i : ℕ) → i < h → get_or (take h xs) i [] ≡ get_or xs i []
get_or-take xs zero i lt = elim lt [ ]
get_or-take [] (suc h) i lt = refl
get_or-take (x ∷ xs) (suc h) zero lt = refl
get_or-take (x ∷ xs) (suc h) (suc i) lt = get_or-take xs h i (omega arith)

-- Reading round the ring is reading its contents.
get_or-contents :
    (r : Ring) (i : ℕ)
    → i < length r.ring
    → r.head < length r.ring
    → get_or r.ring ((r.head + i) % length r.ring) [] ≡ get_or (contents r) i []
get_or-contents r i hi hh = elim (dec_lt (r.head + i) (length r.ring)) [
  | yes p ↦
      rw
        (
          mod-eq_of_lt p,
          get_or-append_left (drop r.head r.ring) (take r.head r.ring) i
              (omega (arith, length-drop r.head r.ring)),
        )
        (sym (get_or-drop r.ring r.head i))
  | no p ↦
      let d = length-drop r.head r.ring in
      let j : (r.head + i) % length r.ring ≡ i - length (drop r.head r.ring) = omega (
        arith,
        d,
        mod-eq-sub-mod {n = r.head + i} {m = length r.ring} (omega arith),
        mod-eq_of_lt {n = r.head + i - length r.ring} {m = length r.ring} (omega arith),
      ) in
      rw (j, get_or-append_right (drop r.head r.ring) (take r.head r.ring) i (omega (arith, d)))
        (sym (get_or-take r.ring r.head (i - length (drop r.head r.ring)) (omega (arith, d))))
]

write_ring-concat :
    (r : Ring) (lines : List Bytes) (k : ℕ)
    → ((i : ℕ)
        → i < length lines
        → get_or r.ring ((r.head + (k + i)) % length r.ring) [] ≡ get_or lines i [])
    → write_ring (length lines) k r ≡ concat lines
unfolding write_ring
write_ring-concat r [] k h = refl
write_ring-concat r (line ∷ lines) k h =
    let start : k + 0 ≡ k = omega arith in
    ap₂ ◌++◌ (rw start at (h 0 (omega arith))) (
      write_ring-concat r lines (k + 1)
        λ i lt. let e : k + 1 + i ≡ k + suc i = omega arith in rw e (h (suc i) (omega arith)))

lines_from-drop :
    (k n : ℕ) (lines : List Bytes) → lines_from k n lines ≡ concat (drop (n - k) lines)
unfolding lines_from
lines_from-drop k n [] = ap concat (sym (drop-nil (n - k)))
lines_from-drop k n (line ∷ lines) = elim (dec_lt k n) [
  | yes p ↦
      let e : n - k ≡ suc (n - (k + 1)) = omega arith in
      rw e (ground (arith, lines_from-drop (k + 1) n lines))
  | no p ↦
      let e : n - k ≡ 0 = omega arith in
      let f : n - (k + 1) ≡ 0 = omega arith in
      rw e (ground (arith, lines_from-drop (k + 1) n lines, f))
]

write_ring-last :
    (n : ℕ) (lines : List Bytes)
    → 0 < n
    → (let r = keep_all n empty lines in write_ring (length r.ring) 0 r) ≡ concat (last n lines)
write_ring-last n lines pos =
    let (k, e) = keep_all-last n empty lines pos (inl (refl, refl, pos)) in
    let r = keep_all n empty lines in
    let size : length (contents r) ≡ length r.ring = omega (
      arith,
      length-append (drop r.head r.ring) (take r.head r.ring),
      length-drop r.head r.ring,
      length-take r.head r.ring,
    ) in
    (ap (λ m. write_ring m 0 r) (sym size)
      ∙ write_ring-concat r (contents r) 0 (λ i lt.
        let z : 0 + i ≡ i = omega arith in rw z (get_or-contents r i (omega arith) (omega arith))))
    ∙ ap concat e

-- `tail -n N` writes the last N lines, and `tail -n +N` the lines from number N on; a line runs up to
-- its newline, and a text that ends in none has a last line without it.
pub emit_last_lines-last :
    (n : ℕ) (from_start : Bool) (s : Bytes)
    → emit_last_lines n from_start s
      ≡ concat (if from_start then drop (n - 1) (read_lines s) else last n (read_lines s))
unfolding emit_last_lines
emit_last_lines-last n true s = lines_from-drop 1 n (read_lines s)
emit_last_lines-last zero false s = sym (ap concat (drop_all _ (read_lines s) (omega arith)))
emit_last_lines-last (suc n) false s = ground (arith, write_ring-last (suc n) (read_lines s))
