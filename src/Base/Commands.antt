-- ===== src/Base/Commands.antt =====
-- What the commands have in common: their operands, their messages and their exit status.
use Prim.Native.Nat.{ℕ}
use mathlib.Core.Bool.{Bool, false}
use mathlib.Core.List.{List, [], ◌∷◌}
use ba.Base.Tests.{if◌then◌else◌, ◌==◌}
use ba.Base.Lists.{Bytes, codes}

-- `a[0] == '-'`, for a text that is not empty
abbrev pub starts_dash : Bytes → Bool
starts_dash [] = false
starts_dash (c ∷ s) = c == b'-'

-- Standard input where no file is named.
abbrev pub default_names : List Bytes → List Bytes
default_names [] = codes "-" ∷ []
default_names (name ∷ names) = name ∷ names

-- A message where something went wrong.
abbrev pub unless {ℓ} : {A : Type ℓ} → Bool → A → List A
unless fine message = if fine then [] else message ∷ []

-- Each message sets the exit status to 1.
abbrev pub status_of {ℓ} : {A : Type ℓ} → List A → ℕ
status_of [] = 0
status_of (m ∷ ms) = 1
