-- ===== src/Base/Results.antt =====
-- Go's `(value, error)` results, and chains of them.
use mathlib.Core.Path.{◌≡◌, refl}

pub data Result {ℓ} (E : Type 0) (A : Type ℓ) : Type ℓ where
  ok : A → Result E A
  err : E → Result E A

-- The next step of a chain runs only if there was no error.
infixl 5 ◌>>=◌
abbrev pub ◌>>=◌ {ℓ κ} :
    {E : Type 0} {S : Type ℓ} {T : Type κ} → Result E S → (S → Result E T) → Result E T
ok value >>= next = next value
err reason >>= next = err reason

-- A chain that succeeds has a first value, from which the next step succeeds.
pub ok_chain {ℓ κ} :
    {E : Type 0} {S : Type ℓ} {T : Type κ} (first : Result E S) (next : S → Result E T) {out : T}
    → (first >>= next) ≡ ok out
    → (value : S) × (first ≡ ok value) × (next value ≡ ok out)
ok_chain (ok value) next reached = (value, refl, reached)
ok_chain (err reason) next reached = cc

-- A chain whose first value is known.
pub bind_ok {ℓ κ} :
    {E : Type 0} {S : Type ℓ} {T : Type κ} (first : Result E S) (value : S) (next : S → Result E T)
    (out : Result E T)
    → first ≡ ok value
    → next value ≡ out
    → (first >>= next) ≡ out
bind_ok first value next out e h = rw e h
