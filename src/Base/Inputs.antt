-- ===== src/Base/Inputs.antt =====
-- What `openInput` of util.go gives a command: the file system and standard input are a parameter.
use mathlib.Core.Bool.{Bool}
use mathlib.Core.Option.{Option}
use ba.Base.Lists.{Bytes}

-- The bytes that a file delivers, whether it ends in a read error instead of EOF, and whether
-- closing it succeeds.
pub record File : Type 0 where
  pub bytes : Bytes
  pub broken : Bool
  pub closes : Bool

-- `none` where opening fails; the name "-" is standard input.
abbrev pub Files : Type 0
Files = Bytes → Option File
