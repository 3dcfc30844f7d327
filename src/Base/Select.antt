-- ===== src/Base/Select.antt =====
-- Filtering by a Boolean test, and its laws.
use mathlib.Core.Path.{◌≡◌, refl}
use mathlib.Core.Bool.{Bool, true}
use mathlib.Core.List.{List, [], ◌∷◌, ◌++◌}
use native.Mathlib.Omega.{arith}
use ba.Base.Tests.{if◌then◌else◌}
use ba.Base.Lists.{All}

module _ {ℓ} {A : Type ℓ} (keep : A → Bool) where
  abbrev pub select : List A → List A
  select [] = []
  select (x ∷ xs) = if keep x then x ∷ select xs else select xs

  pub select-append : (xs ys : List A) → select (xs ++ ys) ≡ select xs ++ select ys
  select-append [] ys = refl
  select-append (x ∷ xs) ys = ground (arith, select-append xs ys)

  pub All-select : (xs : List A) → All (λ x. keep x ≡ true) (select xs)
  All-select [] = tt
  All-select (x ∷ xs) = ground (arith, All-select xs)
