-- ===== src/Uniq/Run/Laws.antt =====
-- Runs of `cmdUniq` on all inputs.
use ba.Base.{ℕ, false, [], ◌∷◌, ◌++◌, Bytes}
use ba.Base.Lines.{newline}
use ba.Uniq.Emit.{Mode, absent}

-- A line and its newline, for a run of lines.
abbrev pub first_of : Bytes → ℕ → Bytes
first_of line n = line ++ newline ∷ []

-- The mode without options.
abbrev pub plain_mode : Mode
plain_mode = record {
  count = false;
  only_dup = false;
  only_uniq = false;
  all_repeat = absent;
  group_mode = absent;
  term = newline;
}
