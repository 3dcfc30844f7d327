-- ===== src/Cut/Run/Laws.antt =====
-- Runs of `cmdCut` on all lists and lines.
use ba.Base.{List, [], ◌∷◌, ◌++◌, Bytes, concat}
use ba.Base.Lines.{newline}
use ba.Cut.Ranges.{Range}
use ba.Cut.Select.{pick, byte_units}
use ba.Cut.Command.{CutOptions, fresh, mode_bytes}

-- The options of `cut -b LIST -- FILE`.
abbrev pub byte_options : Bytes → Bytes → CutOptions
byte_options list name = record fresh { mode = mode_bytes; list = list; names = name ∷ [] }

-- The bytes of a line at the positions of a list, and the newline.
abbrev pub selected : List Range → Bytes → Bytes
selected rs line = concat (pick rs 1 (byte_units line)) ++ newline ∷ []

abbrev pub selections : List Range → List Bytes → Bytes
selections rs [] = []
selections rs (line ∷ lines) = selected rs line ++ selections rs lines
