-- ===== src/Uniq/Groups.antt =====
-- The loop of `cmdUniq` over the lines, and the groups that it makes.
pub mod Laws
use ba.Base.{ℕ, suc, ◌+◌, Bool, true, false, List, [], ◌∷◌, ◌++◌, Bytes, if◌then◌else◌, bytes_eq}
use ba.Uniq.Emit.{Mode, emit}

module _ (m : Mode) (key : Bytes → Bytes) where
  -- With a group in the making: its first line, the key, and the lines so far.
  unfoldable pub uniq_loop : Bool → Bytes → Bytes → ℕ → List Bytes → Bytes
  uniq_loop printed_any cur cur_key n [] = (emit m printed_any cur n false).0
  uniq_loop printed_any cur cur_key n (line ∷ lines) =
      let k = key line in
      let same = uniq_loop printed_any cur cur_key (n + 1) lines in
      let (out, printed) = emit m printed_any cur n true in
      let other = out ++ uniq_loop printed line k 1 lines in
      if bytes_eq k cur_key then same else other

  unfoldable pub uniq_lines : List Bytes → Bytes
  unfolding uniq_loop emit
  uniq_lines [] = []
  uniq_lines (line ∷ lines) = uniq_loop false line (key line) 1 lines
