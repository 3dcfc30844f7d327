-- ===== src/Tail/Examples.antt =====
-- `tail` at concrete inputs.
use ba.Base.{◌≡◌, refl, false, if◌then◌else◌, List, [], ◌∷◌, codes, Bytes, concat, drop, ◌-◌}
use ba.Base.Lines.{read_lines}
use ba.Tail.{emit_last_lines, emit_last_bytes}
use ba.Tail.Chunks.{last, emit_last_bytes-last}
use ba.Tail.Lines.{emit_last_lines-last}

abbrev poem : Bytes
poem = codes "one\ntwo\nthree\nfour"

last_two : emit_last_lines 2 false poem ≡ codes "three\nfour"
unfolding emit_last_lines read_lines
last_two = refl

abbrev cut_up : List Bytes
cut_up = codes "he" ∷ [] ∷ codes "llo, w" ∷ codes "orld" ∷ []

emit_last_lines-last_example :
    emit_last_lines 2 false poem
    ≡ concat (if false then drop (2 - 1) (read_lines poem) else last 2 (read_lines poem))
emit_last_lines-last_example = emit_last_lines-last 2 false poem

emit_last_bytes-last_example :
    emit_last_bytes 5 false cut_up
    ≡ (if false then drop (5 - 1) (concat cut_up) else last 5 (concat cut_up))
emit_last_bytes-last_example = emit_last_bytes-last 5 false cut_up
