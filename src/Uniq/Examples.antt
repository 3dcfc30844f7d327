-- ===== src/Uniq/Examples.antt =====
-- Runs of `cmdUniq`, and the theorems about uniq.go at concrete inputs.
use ba.Base.{
  ◌≡◌, refl, true, false, List, [], ◌∷◌, none, some, Bytes, codes, bytes_eq, if◌then◌else◌, map,
}
use ba.Base.Lines.{scan_lines, read_lines, chomp, newline}
use ba.Base.Decimal.{decimal, pad_left}
use ba.Head.Count.{parse_int}
use ba.Uniq.Key.{key}
use ba.Uniq.Emit.{Mode, absent, plain, emit, emit_group}
use ba.Uniq.Groups.{uniq_lines}
use ba.Uniq.Groups.Laws.{uniq_lines-plain, uniq_lines-copies}
use ba.Uniq.Run.{World, cmd_uniq, uniq_method, method_of, lines_of}

abbrev pub world_of : Bytes → World
world_of s = record {
  files = λ name. some (record { bytes = s; broken = false; closes = true });
  is_same = λ a b. false;
  creates = λ name. true;
  flushes = true;
  out_closes = true;
}

abbrev pub lower : Bytes → Bytes
lower s = map (λ c. if bytes_eq (c ∷ []) (codes "A") then 97 else c) s

abbrev pub list : Bytes
list = codes "a\nA\nb\n"

-- The first line of the group, twice: the second line is lost.
first_line_twice :
    cmd_uniq (world_of list) lower (codes "-Di" ∷ [])
    ≡ record { status = 0; target = none; out = codes "a\na\n"; messages = [] }
unfolding cmd_uniq key lines_of uniq_method method_of scan_lines read_lines chomp uniq_lines emit
    emit_group
first_line_twice = refl

-- A blank line behind the last group that is printed.
separator_at_end :
    cmd_uniq (world_of list) lower (codes "--all-repeated=separate" ∷ codes "-i" ∷ [])
    ≡ record { status = 0; target = none; out = codes "a\na\n\n"; messages = [] }
unfolding cmd_uniq key lines_of uniq_method method_of scan_lines read_lines chomp uniq_lines emit
    emit_group
separator_at_end = refl

-- The scanner takes the carriage return off the line.
carriage_return :
    cmd_uniq (world_of (codes "a\r\n")) lower []
    ≡ record { status = 0; target = none; out = codes "a\n"; messages = [] }
unfolding cmd_uniq key lines_of uniq_method method_of scan_lines read_lines chomp uniq_lines emit
    emit_group
carriage_return = refl

counts :
    cmd_uniq
      (world_of list)
      lower
      (codes "-ci" ∷ codes "-s" ∷ codes "0" ∷ codes "--" ∷ codes "in" ∷ codes "out" ∷ [])
    ≡ record {
      status = 0;
      target = some (codes "out");
      out = codes "      2 a\n      1 b\n";
      messages = [];
    }
unfolding cmd_uniq key lines_of uniq_method method_of scan_lines read_lines chomp uniq_lines emit
    emit_group decimal pad_left parse_int
counts = refl

abbrev pub letters : List Bytes
letters = codes "a" ∷ codes "A" ∷ codes "b" ∷ []

abbrev pub repeated : Mode
repeated = record {
  count = false;
  only_dup = true;
  only_uniq = false;
  all_repeat = absent;
  group_mode = absent;
  term = newline;
}

abbrev pub all_repeated : Mode
all_repeated = record {
  count = false;
  only_dup = false;
  only_uniq = false;
  all_repeat = plain;
  group_mode = absent;
  term = newline;
}

uniq_lines-plain_example : uniq_lines repeated lower letters ≡ codes "a\n"
uniq_lines-plain_example = uniq_lines-plain repeated lower letters refl refl

uniq_lines-copies_example : uniq_lines all_repeated lower letters ≡ codes "a\na\n"
uniq_lines-copies_example = uniq_lines-copies all_repeated lower letters refl refl refl
