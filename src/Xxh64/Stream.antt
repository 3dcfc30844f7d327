-- ===== src/Xxh64/Stream.antt =====
-- The hash does not depend on the pieces in which the data arrives.
use ba.Base.{
  ℕ, zero, suc, ◌^◌, ◌+◌, ◌-◌, ◌≤◌, ◌<◌, ◌≡◌, refl, sym, ap, ◌∙◌, List, [], ◌∷◌, ◌++◌, append_assoc,
  Bytes, arith, leb, ltb, if◌then◌else◌, Bool-cases, lt→ltb, leb→le, inl, inr, length, take, drop,
  length-append, length-take, length-drop, drop-append, concat, min, take_all, append-nil,
}
use native.Mathlib.Decide.{dec_lt}
use ba.Xxh64.{Lanes, Hash, add, consume, absorb, settle, top_up, write, sum64}

take-append : (n : ℕ) (xs ys : Bytes) → n ≤ length xs → take n (xs ++ ys) ≡ take n xs
take-append zero xs ys h = refl
take-append (suc n) [] ys h = elim h [ ]
take-append (suc n) (x ∷ xs) ys h = ap (λ t. x ∷ t) (take-append n xs ys (omega arith))

take-append_add : (n : ℕ) (xs ys : Bytes) → take (length xs + n) (xs ++ ys) ≡ xs ++ take n ys
take-append_add n [] ys = ap (λ k. take k ys) (omega arith)
take-append_add n (x ∷ xs) ys =
    let e : suc (length xs) + n ≡ suc (length xs + n) = omega arith in
    rw e (ap (λ t. x ∷ t) (take-append_add n xs ys))

drop-append_add : (n : ℕ) (xs ys : Bytes) → drop (length xs + n) (xs ++ ys) ≡ drop n ys
drop-append_add n [] ys = ap (λ k. drop k ys) (omega arith)
drop-append_add n (x ∷ xs) ys =
    let e : suc (length xs) + n ≡ suc (length xs + n) = omega arith in
    rw e (drop-append_add n xs ys)

absorb_short : (fuel : ℕ) (v : Lanes) (s : Bytes) → length s < 32 → absorb fuel v s ≡ (v, s)
unfolding absorb
absorb_short zero v s h = refl
absorb_short (suc fuel) v s h = ground arith

absorb_long :
    (fuel : ℕ) (v : Lanes) (s : Bytes)
    → 32 ≤ length s
    → absorb (suc fuel) v s ≡ absorb fuel (consume v (take 32 s)) (drop 32 s)
unfolding absorb
absorb_long fuel v s h = ground arith

absorb_fuel :
    (f g : ℕ) (v : Lanes) (s : Bytes) → length s ≤ f → length s ≤ g → absorb f v s ≡ absorb g v s
absorb_fuel zero g v s hf hg =
    absorb_short zero v s (omega arith) ∙ sym (absorb_short g v s (omega arith))
absorb_fuel (suc f) zero v s hf hg =
    absorb_short (suc f) v s (omega arith) ∙ sym (absorb_short zero v s (omega arith))
absorb_fuel (suc f) (suc g) v s hf hg = elim (Bool-cases (leb 32 (length s))) [
  | inl e ↦
      rw (absorb_long f v s (ground arith), absorb_long g v s (ground arith))
        (absorb_fuel f g (consume v (take 32 s)) (drop 32 s)
          (omega (arith, length-drop 32 s, leb→le 32 (length s) e))
          (omega (arith, length-drop 32 s, leb→le 32 (length s) e)))
  | inr e ↦ rw (absorb_short (suc f) v s (ground arith), absorb_short (suc g) v s (ground arith))
]

-- Fewer bytes than a stripe are left.
absorb-rest : (f : ℕ) (v : Lanes) (s : Bytes) → length s ≤ f → length (absorb f v s).1 < 32
unfolding absorb
absorb-rest zero v s h = omega arith
absorb-rest (suc f) v s h =
    ground (arith, absorb-rest f (consume v (take 32 s)) (drop 32 s), length-drop 32 s)

absorb-rest-le : (f : ℕ) (v : Lanes) (s : Bytes) → length (absorb f v s).1 ≤ length s
unfolding absorb
absorb-rest-le zero v s = omega arith
absorb-rest-le (suc f) v s =
    ground (arith, absorb-rest-le f (consume v (take 32 s)) (drop 32 s), length-drop 32 s)

-- Absorbing `s ++ t` at once, or `t` behind what is left of `s`.
absorb-append :
    (f g : ℕ) (v : Lanes) (s t : Bytes)
    → length s ≤ f
    → length s + length t ≤ g
    → absorb g v (s ++ t) ≡ absorb g (absorb f v s).0 ((absorb f v s).1 ++ t)
absorb-append zero g v s t hf hg = rw (absorb_short zero v s (omega arith))
absorb-append (suc f) zero v s t hf hg = rw (absorb_short (suc f) v s (omega arith))
absorb-append (suc f) (suc g) v s t hf hg = elim (Bool-cases (leb 32 (length s))) [
  | inl e ↦
      let le = leb→le 32 (length s) e in
      let d = length-drop 32 s in
      rw (absorb_long f v s le) (
        absorb_long g v (s ++ t) (omega (arith, length-append s t))
        ∙ (rw (take-append 32 s t le, drop-append 32 s t le)
            (absorb_fuel g (suc g) (consume v (take 32 s)) (drop 32 s ++ t)
                (omega (arith, length-append (drop 32 s) t))
                (omega (arith, length-append (drop 32 s) t))
              ∙ absorb-append f (suc g) (consume v (take 32 s)) (drop 32 s) t (omega arith)
                  (omega arith))))
  | inr e ↦ rw (absorb_short (suc f) v s (ground arith))
]

-- What `top_up` is given is the data behind the pending bytes `q`.
top_up-absorb :
    (total : ℕ) (v : Lanes) (q s : Bytes) (n : ℕ)
    → length q < 32
    → n ≡ min (32 - length q) (length s)
    → top_up total v (q ++ take n s) (drop n s)
      ≡ settle total (absorb (length q + length s) v (q ++ s))
unfolding top_up
top_up-absorb total v q s n p e = elim (dec_lt (length q + length s) 32) [
  | yes short ↦
      rw
        (take_all n s (omega arith), lt→ltb (length (q ++ s)) 32 (omega (arith, length-append q s)))
        (unfold settle in
          ap (settle total) (
            sym (absorb_short (length q + length s) v (q ++ s) (omega (arith, length-append q s)))))
  | no long ↦
      let n32 : length q + n ≡ 32 = omega arith in
      let front : q ++ take n s ≡ take 32 (q ++ s) =
        sym (take-append_add n q s) ∙ ap (λ k. take k (q ++ s)) n32 in
      let back : drop n s ≡ drop 32 (q ++ s) =
        sym (drop-append_add n q s) ∙ ap (λ k. drop k (q ++ s)) n32 in
      let enough : 32 ≤ length (q ++ s) = omega (arith, length-append q s) in
      rw (front, back)
        (ground (
          arith,
          length-take 32 (q ++ s),
          absorb_long (length q + length s) v (q ++ s) enough,
          absorb_fuel (suc (length q + length s)) (length q + length s) v (q ++ s),
          absorb_fuel (length (drop 32 (q ++ s))) (length q + length s)
              (consume v (take 32 (q ++ s))) (drop 32 (q ++ s)),
          length-drop 32 (q ++ s),
          length-append q s,
        ))
]

-- `Write` absorbs the pending bytes and the data, in one piece.
write-absorb :
    (h : Hash) (s : Bytes)
    → length h.pending < 32
    → write h s
      ≡ settle
          (add h.total (length s))
          (absorb (length h.pending + length s) h.lanes (h.pending ++ s))
unfolding write
write-absorb h s p = go h.pending p
  where
    total : ℕ
    total = add h.total (length s)

    go :
        (pending : Bytes)
        → length pending < 32
        → (let n = min (32 - length pending) (length s) in
            if ltb 0 (length pending)
            then top_up total h.lanes (pending ++ take n s) (drop n s)
            else settle total (absorb (length s) h.lanes s))
          ≡ settle total (absorb (length pending + length s) h.lanes (pending ++ s))
    go [] p = ap (λ k. settle total (absorb k h.lanes s)) (omega arith)
    go (b ∷ bs) p =
        rw (lt→ltb 0 (suc (length bs)) (omega arith))
          (top_up-absorb total h.lanes (b ∷ bs) s _ p refl)

add_twice : (t a b : ℕ) → add (add t a) b ≡ add t (a + b)
unfolding add
add_twice t a b = omega arith

write_short : (h : Hash) (s : Bytes) → length h.pending < 32 → length (write h s).pending < 32
write_short h s p = rw (write-absorb h s p) (
    unfold settle in
    absorb-rest (length h.pending + length s) h.lanes (h.pending ++ s)
      (omega (arith, length-append h.pending s)))

-- Writing two pieces one after the other is writing them in one, from every state in which less than
-- a stripe is pending, and such a state is left.
pub write-write :
    (h : Hash) (s t : Bytes)
    → length h.pending < 32
    → (write (write h s) t ≡ write h (s ++ t)) × (length (write h s).pending < 32)
unfolding settle
write-write h s t p = (together, write_short h s p)
  where
    fuel : ℕ
    fuel = length h.pending + length s

    all_fuel : ℕ
    all_fuel = length h.pending + length (s ++ t)

    first : Lanes × Bytes
    first = absorb (length h.pending + length s) h.lanes (h.pending ++ s)

    w : write h s ≡ settle (add h.total (length s)) first
    w = write-absorb h s p

    together : write (write h s) t ≡ write h (s ++ t)
    together =
        write-absorb (write h s) t (write_short h s p)
        ∙ rw (w, write-absorb h (s ++ t) p)
            (ground (
              arith,
              add_twice h.total (length s) (length t),
              length-append s t,
              length-append h.pending s,
              length-append first.1 t,
              absorb-rest-le fuel h.lanes (h.pending ++ s),
              absorb_fuel (length first.1 + length t) all_fuel first.0 (first.1 ++ t),
              absorb-append fuel all_fuel h.lanes (h.pending ++ s) t,
              append_assoc h.pending s t,
            ))

abbrev pub write_all : Hash → List Bytes → Hash
write_all h [] = h
write_all h (s ∷ pieces) = write_all (write h s) pieces

write_nil : (h : Hash) → length h.pending < 32 → h.total < 2 ^ 64 → write h [] ≡ h
unfolding settle add
write_nil h p fits =
    write-absorb h [] p
    ∙ ground
        (arith, append-nil h.pending, absorb_short (length h.pending + 0) h.lanes (h.pending ++ []))

total-write : (h : Hash) (s : Bytes) → length h.pending < 32 → (write h s).total < 2 ^ 64
total-write h s p = rw (write-absorb h s p) (unfold settle add in omega arith)

-- `Sum64` of data that is written piece by piece is that of the data in one piece.
pub sum64-write_all :
    (pieces : List Bytes) (h : Hash)
    → length h.pending < 32
    → h.total < 2 ^ 64
    → sum64 (write_all h pieces) ≡ sum64 (write h (concat pieces))
sum64-write_all [] h p fits = rw (write_nil h p fits)
sum64-write_all (s ∷ pieces) h p fits =
    sum64-write_all pieces (write h s) (write_short h s p) (total-write h s p)
    ∙ ap sum64 (write-write h s (concat pieces) p).0
