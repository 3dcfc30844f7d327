-- ===== src/Tail/Chunks.antt =====
-- `tail -c`: the last bytes, however the input is cut into chunks.
use ba.Base.{
  ℕ, zero, suc, Bool, drop_all, ◌+◌, ◌-◌, ◌≤◌, ◌≡◌, refl, sym, ap, ◌∙◌, List, [], ◌∷◌, ◌++◌,
  append_assoc, append-nil, Bytes, arith, concat, length, drop, length-append, length-drop,
  drop-append, drop-add, if◌then◌else◌, true, false,
}
use ba.Tail.{keep_bytes, keep_chunks, emit_last_bytes}

-- The last `n` items.
abbrev pub last {ℓ} : {A : Type ℓ} → ℕ → List A → List A
last n xs = drop (length xs - n) xs

drop-append_right {ℓ} :
    {A : Type ℓ} (xs ys : List A) (n : ℕ) → drop (length xs + n) (xs ++ ys) ≡ drop n ys
drop-append_right [] ys n = ap (λ k. drop k ys) (omega arith)
drop-append_right (x ∷ xs) ys n =
    let e : suc (length xs) + n ≡ suc (length xs + n) = omega arith in
    rw e (drop-append_right xs ys n)

-- What stands before the last `n` items does not matter.
pub last-append {ℓ} :
    {A : Type ℓ} (n : ℕ) (xs ys : List A) → last n (last n xs ++ ys) ≡ last n (xs ++ ys)
last-append n xs ys =
    let k = length xs - n in
    let fits : k ≤ length xs = omega arith in
    rw (← drop-append k xs ys fits, drop-add k (length (drop k (xs ++ ys)) - n) (xs ++ ys))
      (ap (λ i. drop i (xs ++ ys)) (omega (arith, length-drop k (xs ++ ys), length-append xs ys)))

keep_bytes-last :
    (n : ℕ) (buf chunk : Bytes) → length buf ≤ n → keep_bytes n buf chunk ≡ last n (buf ++ chunk)
unfolding keep_bytes
keep_bytes-last n buf chunk h = ground (
  arith,
  length-append buf chunk,
  drop-append_right buf chunk (length chunk - n),
  empty_chunk chunk,
  append-nil buf,
)
  where
    empty_chunk : (c : Bytes) → length c ≡ 0 → c ≡ []
    empty_chunk [] e = refl
    empty_chunk (x ∷ c) e = absurd (omega arith)

keep_chunks-last :
    (n : ℕ) (buf : Bytes) (chunks : List Bytes)
    → length buf ≤ n
    → keep_chunks n buf chunks ≡ last n (buf ++ concat chunks)
unfolding keep_chunks
keep_chunks-last n buf [] h = rw append-nil (let e : length buf - n ≡ 0 = omega arith in rw e)
keep_chunks-last n buf (chunk ∷ chunks) h = rw (keep_bytes-last n buf chunk h) (
    keep_chunks-last n (last n (buf ++ chunk)) chunks
      (omega (arith, length-drop (length (buf ++ chunk) - n) (buf ++ chunk)))
    ∙ (last-append n (buf ++ chunk) (concat chunks)
        ∙ ap (last n) (append_assoc buf chunk (concat chunks))))

-- `tail -c N` writes the last N bytes of its input, and `tail -c +N` the bytes from number N on,
-- however the input is cut into chunks.
pub emit_last_bytes-last :
    (n : ℕ) (from_start : Bool) (chunks : List Bytes)
    → emit_last_bytes n from_start chunks
      ≡ (if from_start then drop (n - 1) (concat chunks) else last n (concat chunks))
unfolding emit_last_bytes
emit_last_bytes-last n true chunks = refl
emit_last_bytes-last zero false chunks = sym (drop_all _ (concat chunks) (omega arith))
emit_last_bytes-last (suc n) false chunks = ground (arith, keep_chunks-last (suc n) [] chunks)
