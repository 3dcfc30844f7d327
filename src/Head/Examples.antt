-- ===== src/Head/Examples.antt =====
-- Runs of `cmdHead`, and the theorems about head.go at concrete inputs.
use ba.Base.{
  ◌≤◌, ◌≡◌, refl, true, false, [], ◌∷◌, none, some, Bytes, codes, concat, take, Files, bytes_eq,
  if◌then◌else◌,
}
use ba.Base.Int64.{max_int}
use ba.Base.Lines.{read_lines}
use ba.Util.Options.{is_cluster}
use ba.Head.Count.{parse_count}
use ba.Head.Count.Laws.{parse_count_bounds}
use ba.Head.Command.{cmd_head, invalid_number, cannot_open}
use ba.Head.Command.Laws.{cmd_head-lines}

abbrev poem : Bytes
poem = codes "one\ntwo\nthree"

abbrev disk : Files
disk name =
    if bytes_eq name (codes "poem")
    then some (record { bytes = poem; broken = false; closes = true })
    else none

two_files : cmd_head disk true (codes "-n1" ∷ codes "gone" ∷ codes "poem" ∷ []) ≡ record {
  status = 1;
  out = codes "\n==> poem <==\none\n";
  messages = cannot_open (codes "gone") ∷ [];
}
unfolding cmd_head parse_count read_lines
two_files = refl

bad_count :
    cmd_head disk true (codes "-c" ∷ codes "3x" ∷ [])
    ≡ record { status = 1; out = []; messages = invalid_number (codes "3x") ∷ [] }
unfolding cmd_head parse_count read_lines
bad_count = refl

two_k : parse_count (codes " 2k ") ≡ some 2048
unfolding parse_count
two_k = refl

two : parse_count (codes "2") ≡ some 2
unfolding parse_count
two = refl

parse_count_bounds_example : 2048 ≤ max_int
parse_count_bounds_example = parse_count_bounds (codes " 2k ") 2048 two_k

cmd_head-lines_example :
    cmd_head disk true (codes "-n" ∷ codes "2" ∷ codes "--" ∷ codes "poem" ∷ [])
    ≡ record { status = 0; out = concat (take 2 (read_lines poem)); messages = [] }
unfolding is_cluster
cmd_head-lines_example = cmd_head-lines disk (codes "2") (codes "poem") poem 2 two refl refl refl
