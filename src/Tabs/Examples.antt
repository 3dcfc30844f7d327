-- ===== src/Tabs/Examples.antt =====
-- Runs of expand(1) and unexpand(1).
use ba.Base.{
  ◌≡◌, refl, true, false, [], ◌∷◌, ◌++◌, none, some, Bytes, codes, All, ◌==◌, arith, bytes_eq,
  if◌then◌else◌, Files,
}
use ba.Tabs.Stops.{TabStops, extend_not_last}
use ba.Tabs.Args.{bad_stops}
use ba.Tabs.Expand.{expand_bytes}
use ba.Tabs.Unexpand.{unexpand_bytes}
use ba.Tabs.Expand
use ba.Tabs.Unexpand
use ba.Tabs.Unexpand.{flush_pending}
use ba.Tabs.NoTabs.{expand_bytes_twice}
use ba.Tabs.RoundTrip.{expand_bytes-unexpand_bytes}
use ba.Tabs.Run.{cmd_expand, cmd_unexpand, failed}

abbrev one_file : Bytes → Files
one_file text name =
    if bytes_eq name (codes "f")
    then some (record { bytes = text; broken = false; closes = true })
    else none

tab_text :
    cmd_expand (one_file (codes "a" ++ 9 ∷ codes "b")) true (codes "-t4" ∷ codes "f" ∷ [])
    ≡ record { status = 0; out = codes "a   b"; messages = [] }
unfolding cmd_expand expand_bytes
tab_text = refl

two_stops :
    cmd_expand
      (one_file (9 ∷ codes "a" ++ 9 ∷ codes "b"))
      true
      (codes "-t" ∷ codes "2,5" ∷ codes "f" ∷ [])
    ≡ record { status = 0; out = codes "  a  b"; messages = [] }
unfolding cmd_expand expand_bytes
two_stops = refl

blanks :
    cmd_unexpand (one_file (codes "        a       b  c")) true (codes "-a" ∷ codes "f" ∷ [])
    ≡ record { status = 0; out = 9 ∷ codes "a" ++ 9 ∷ codes "b  c"; messages = [] }
unfolding cmd_unexpand unexpand_bytes
blanks = refl

-- A single blank before a stop becomes a tab only with more blanks behind it.
single_blank :
    cmd_unexpand (one_file (codes "abc d abc  d")) true (codes "-t4" ∷ codes "f" ∷ [])
    ≡ record { status = 0; out = codes "abc d abc" ++ codes "  d"; messages = [] }
unfolding cmd_unexpand unexpand_bytes
single_blank = refl

twice_extended :
    cmd_expand (one_file []) true (codes "-t" ∷ codes "/4,/5" ∷ [])
    ≡ failed (bad_stops extend_not_last)
unfolding cmd_expand expand_bytes
twice_extended = refl

abbrev every_four : TabStops
every_four = record { size = 4; stops = 4 ∷ []; extend = 0; increment = 0 }

expand_bytes-unexpand_bytes_example :
    let r = unexpand_bytes every_four true Unexpand.line_start (codes "abc  d      e") in
    expand_bytes every_four false Expand.line_start (r.0 ++ (flush_pending r.1).0)
    ≡ expand_bytes every_four false Expand.line_start (codes "abc  d      e")
expand_bytes-unexpand_bytes_example =
    expand_bytes-unexpand_bytes every_four true (codes "abc  d      e") (omega arith)

expand_bytes_twice_example :
    let out = (expand_bytes every_four false Expand.line_start (codes "a" ++ 9 ∷ codes "b")).0 in
    All (λ b. (b == 9) ≡ false) out
    × ((expand_bytes
          (record { size = 8; stops = []; extend = 0; increment = 0 })
          true
          Expand.line_start
          out).0
        ≡ out)
expand_bytes_twice_example =
    expand_bytes_twice every_four (record { size = 8; stops = []; extend = 0; increment = 0 }) true
      Expand.line_start (codes "a" ++ 9 ∷ codes "b")
