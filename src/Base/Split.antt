-- ===== src/Base/Split.antt =====
-- `strings.Split`, `strings.Join`, `strings.Contains` and prefixes of Go strings.
use Prim.Native.Nat.{ℕ, zero, suc}
use mathlib.Core.Path.{◌≡◌, refl, sym, ap, ◌∙◌}
use mathlib.Core.Bool.{Bool, true, false}
use mathlib.Core.Option.{Option, none, some}
use mathlib.Core.List.{List, [], ◌∷◌, ◌++◌, append_assoc, append-nil}
use native.Mathlib.Omega.{arith}
use ba.Base.Tests.{if◌then◌else◌, ◌==◌}
use ba.Base.Lists.{Bytes, length}

-- What follows a prefix, where the text has it.
unfoldable pub strip_prefix : Bytes → Bytes → Option Bytes
strip_prefix [] s = some s
strip_prefix (p ∷ ps) [] = none
strip_prefix (p ∷ ps) (c ∷ s) = if p == c then strip_prefix ps s else none

-- `strings.Contains(s, sep)`
unfoldable pub holds : Bytes → Bytes → Bool
unfolding strip_prefix
holds sep [] = elim (strip_prefix sep []) [ some rest ↦ true | none ↦ false ]
holds sep (c ∷ s) = elim (strip_prefix sep (c ∷ s)) [ some rest ↦ true | none ↦ holds sep s ]

-- `strings.Split(s, sep)` for a separator that is not empty; `cur` is the part in the making.
unfoldable pub split_loop : Bytes → ℕ → Bytes → Bytes → List Bytes
split_loop sep fuel [] cur = cur ∷ []
split_loop sep zero (c ∷ s) cur = (cur ++ c ∷ s) ∷ []
split_loop sep (suc fuel) (c ∷ s) cur = elim (strip_prefix sep (c ∷ s)) [
  | some rest ↦ cur ∷ split_loop sep fuel rest []
  | none ↦ split_loop sep fuel s (cur ++ c ∷ [])
]

unfoldable pub split : Bytes → Bytes → List Bytes
unfolding split_loop strip_prefix
split s sep = split_loop sep (length s) s []

-- `strings.Join(parts, sep)`
unfoldable pub join : List Bytes → Bytes → Bytes
join [] sep = []
join (p ∷ []) sep = p
join (p ∷ q ∷ parts) sep = p ++ (sep ++ join (q ∷ parts) sep)

pub strip_prefix-append : (p s rest : Bytes) → strip_prefix p s ≡ some rest → s ≡ p ++ rest
unfolding strip_prefix
strip_prefix-append [] s rest h = ground arith
strip_prefix-append (p ∷ ps) [] rest h = cc
strip_prefix-append (p ∷ ps) (c ∷ s) rest h = ground (arith, strip_prefix-append ps s rest)

split_loop-cons :
    (sep : Bytes) (fuel : ℕ) (s cur : Bytes)
    → (p : Bytes) × (ps : List Bytes) × (split_loop sep fuel s cur ≡ p ∷ ps)
unfolding split_loop
split_loop-cons sep fuel [] cur = (cur, [], refl)
split_loop-cons sep zero (c ∷ s) cur = (cur ++ c ∷ s, [], refl)
split_loop-cons sep (suc fuel) (c ∷ s) cur =
    go (strip_prefix sep (c ∷ s)) (split_loop-cons sep fuel s (cur ++ c ∷ []))
  where
    go :
        (o : Option Bytes)
        → (p : Bytes) × (ps : List Bytes) × (split_loop sep fuel s (cur ++ c ∷ []) ≡ p ∷ ps)
        → (p : Bytes) × (ps : List Bytes) × ((elim o [
          | some rest ↦ cur ∷ split_loop sep fuel rest []
          | none ↦ split_loop sep fuel s (cur ++ c ∷ [])
        ])
            ≡ p ∷ ps)
    go (some rest) ih = (cur, split_loop sep fuel rest [], refl)
    go none ih = ih

join-cons :
    (p sep : Bytes) (parts : List Bytes) (q : Bytes) (qs : List Bytes)
    → parts ≡ q ∷ qs
    → join (p ∷ parts) sep ≡ p ++ (sep ++ join parts sep)
unfolding join
join-cons p sep parts q qs e = rw e

join-split_loop :
    (sep : Bytes) (fuel : ℕ) (s cur : Bytes) → join (split_loop sep fuel s cur) sep ≡ cur ++ s
unfolding split_loop
join-split_loop sep fuel [] cur = unfold join in rw append-nil
join-split_loop sep zero (c ∷ s) cur = unfold join in refl
join-split_loop sep (suc fuel) (c ∷ s) cur =
    go (strip_prefix sep (c ∷ s)) (strip_prefix-append sep (c ∷ s))
      (λ rest. join-split_loop sep fuel rest []) (join-split_loop sep fuel s (cur ++ c ∷ []))
  where
    go :
        (o : Option Bytes)
        → ((rest : Bytes) → o ≡ some rest → c ∷ s ≡ sep ++ rest)
        → ((rest : Bytes) → join (split_loop sep fuel rest []) sep ≡ rest)
        → join (split_loop sep fuel s (cur ++ c ∷ [])) sep ≡ (cur ++ c ∷ []) ++ s
        → join
            (elim o [
              | some rest ↦ cur ∷ split_loop sep fuel rest []
              | none ↦ split_loop sep fuel s (cur ++ c ∷ [])
            ])
            sep
          ≡ cur ++ c ∷ s
    go (some rest) spells found missed =
        let (q, qs, e) = split_loop-cons sep fuel rest [] in
        join-cons cur sep _ q qs e
        ∙ (ap (λ t. cur ++ (sep ++ t)) (found rest) ∙ ap (λ t. cur ++ t) (sym (spells rest refl)))
    go none spells found missed = missed ∙ append_assoc cur (c ∷ []) s

-- Joining the parts of a split gives the text back, for every text and separator.
pub join-split : (s sep : Bytes) → join (split s sep) sep ≡ s
unfolding split
join-split s sep = join-split_loop sep (length s) s []
