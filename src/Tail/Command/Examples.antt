-- ===== src/Tail/Command/Examples.antt =====
-- Runs of `cmdTail`, and the theorems about the command at concrete inputs.
use ba.Base.{◌≡◌, refl, true, false, List, [], ◌∷◌, ◌++◌, none, some, Bytes, codes, bytes_eq}
use ba.Util.Options.{is_cluster}
use ba.Head.Count.{parse_count}
use ba.Head.Command.{cmd_head}
use ba.Tail.{emit_last_bytes}
use ba.Tail.Command.{
  World, Read, chunk, at_end, failure, error_reading, many_followed, parse_tail_count, cmd_tail,
}
use ba.Tail.Command.Laws.{selected, cmd_tail-lines, cmd_head-cmd_tail}

abbrev poem : Bytes
poem = codes "one\ntwo\nthree\nfour"

abbrev world_of : Bytes → List Read → World
world_of s appended = record {
  files = λ name. some (record { bytes = s; broken = bytes_eq name (codes "bad"); closes = true });
  reads = λ name. s ∷ [];
  is_os_file = λ name. true;
  flushes = λ name. true;
  appended = λ name. appended;
}

follows :
    cmd_tail
      (world_of poem (chunk (codes "!") ∷ at_end ∷ failure ∷ []))
      (codes "-fc" ∷ codes "4" ∷ codes "log" ∷ [])
    ≡ record { status = some 1; out = codes "four!"; messages = error_reading (codes "log") ∷ [] }
unfolding cmd_tail parse_tail_count parse_count emit_last_bytes
follows = refl

watches :
    cmd_tail (world_of poem (chunk (codes "!") ∷ at_end ∷ [])) (codes "-fc4" ∷ codes "log" ∷ [])
    ≡ record { status = none; out = codes "four!"; messages = [] }
unfolding cmd_tail parse_tail_count parse_count emit_last_bytes
watches = refl

one_only :
    cmd_tail (world_of poem []) (codes "-f" ∷ codes "a" ∷ codes "b" ∷ [])
    ≡ record { status = some 1; out = []; messages = many_followed ∷ [] }
unfolding cmd_tail
one_only = refl

abbrev world : World
world = world_of poem []

cmd_tail-lines_example :
    cmd_tail world (codes "-n" ∷ codes "2" ∷ codes "--" ∷ codes "f" ∷ [])
    ≡ record { status = some 0; out = selected 2 false poem; messages = [] }
unfolding parse_tail_count parse_count is_cluster
cmd_tail-lines_example =
    cmd_tail-lines world (codes "2") (codes "f") poem 2 false refl refl refl refl refl

cmd_head-cmd_tail_example :
    (cmd_head world.files true (codes "-n" ∷ codes "2" ∷ codes "--" ∷ codes "f" ∷ [])).out
      ++ (cmd_tail world (codes "-n" ∷ codes "+3" ∷ codes "--" ∷ codes "f" ∷ [])).out
    ≡ poem
unfolding parse_tail_count parse_count is_cluster
cmd_head-cmd_tail_example =
    cmd_head-cmd_tail world (codes "2") (codes "+3") (codes "f") poem 2 refl refl (refl, refl)
      (refl, refl) refl refl
