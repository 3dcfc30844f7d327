-- ===== src/Tr/Examples.antt =====
-- Runs of `cmdTr`, and the theorems about tr.go at concrete inputs.
use ba.Base.{
  ◌≡◌, ◌≢◌, refl, true, false, not, List, [], ◌∷◌, none, some, codes, Source, contains, select, map,
  All, arith,
}
use ba.Tr.Sets.{in_set, complement_set, expand_class}
use ba.Tr.Sets.Laws.{in_set-contains}
use ba.Tr.Expand.{expand_set, expanded, panic, out_of_fuel}
use ba.Tr.Expand.Bounds.{expand_set_ends}
use ba.Tr.Expand.RoundTrip.{
  Item, literal, range, class, IsProper, print_all, denote_all, expand_set-print,
}
use ba.Tr.Stream.{run_delete, run_translate, run_squeeze_only}
use ba.Tr.Stream.Laws.{
  run_delete-run_squeeze_only, run_translate-run_squeeze_only, run_translate-map,
  run_squeeze_only-IsSqueezed, IsSqueezed, image, last_index,
}
use ba.Tr.Command.{exits, crashes, cmd_tr, extra_operand}
use ba.Tr.Command.Laws.{cmd_tr-delete, cmd_tr_broken, expand_set-panic}

abbrev hello : Source
hello = record { bytes = codes "hello, world"; broken = false }

upper : cmd_tr hello true (codes "a-z" ∷ codes "A-Z" ∷ []) ≡ exits 0 (codes "HELLO, WORLD") none
unfolding cmd_tr expand_set complement_set run_delete run_translate run_squeeze_only
upper = refl

squeeze_letters :
    cmd_tr hello true (codes "-s" ∷ codes "[:alpha:]" ∷ []) ≡ exits 0 (codes "helo, world") none
unfolding cmd_tr expand_set complement_set run_delete run_translate run_squeeze_only
squeeze_letters = refl

keep_letters :
    cmd_tr hello true (codes "-cd" ∷ codes "a-z" ∷ []) ≡ exits 0 (codes "helloworld") none
unfolding cmd_tr expand_set complement_set run_delete run_translate run_squeeze_only
keep_letters = refl

too_many :
    cmd_tr hello true (codes "-d" ∷ codes "a" ∷ codes "b" ∷ [])
    ≡ exits 1 [] (some (extra_operand (codes "b")))
unfolding cmd_tr expand_set complement_set run_delete run_translate run_squeeze_only
too_many = refl

unclosed_class : cmd_tr hello true (codes "-d" ∷ codes "[:]" ∷ []) ≡ crashes
unfolding cmd_tr expand_set complement_set run_delete run_translate run_squeeze_only
unclosed_class = refl

in_set-contains_example : in_set (codes "abc") b'b' ≡ contains (codes "abc") b'b'
in_set-contains_example = in_set-contains (codes "abc") b'b'

expand_set_ends_example : expand_set (codes "a-z[:digit:]") ≢ out_of_fuel
expand_set_ends_example = expand_set_ends (codes "a-z[:digit:]")

abbrev items : List Item
items = literal 200 ∷ range b'a' b'e' ∷ class (codes "blank") (32 ∷ 9 ∷ []) ∷ []

items-IsProper : All IsProper items
unfolding expand_class
items-IsProper = (omega arith, ((omega arith, omega arith, omega arith), ((refl, omega arith), tt)))

expand_set-print_example : expand_set (print_all items) ≡ expanded (denote_all items)
expand_set-print_example = expand_set-print items items-IsProper

expand_set-panic_example : expand_set (codes "[:]a-z") ≡ panic
expand_set-panic_example = expand_set-panic (codes "a-z")

run_delete-run_squeeze_only_example :
    run_delete (codes "bannana") (codes "a") true (codes "n")
    ≡ run_squeeze_only (run_delete (codes "bannana") (codes "a") false (codes "n")) (codes "n")
run_delete-run_squeeze_only_example =
    run_delete-run_squeeze_only (codes "bannana") (codes "a") (codes "n")

run_translate-run_squeeze_only_example :
    run_translate (codes "aabb") (codes "ab") (codes "xx") true
    ≡ run_squeeze_only (run_translate (codes "aabb") (codes "ab") (codes "xx") false) (codes "xx")
run_translate-run_squeeze_only_example =
    run_translate-run_squeeze_only (codes "aabb") (codes "ab") (codes "xx")

run_translate-map_example :
    run_translate (codes "cab") (codes "abca") (codes "xy") false
    ≡ map (λ b. image (last_index (codes "abca") 0 b) (codes "xy") b) (codes "cab")
run_translate-map_example = run_translate-map (codes "cab") (codes "abca") (codes "xy")

run_squeeze_only-IsSqueezed_example :
    IsSqueezed (in_set (codes "l")) none (run_squeeze_only (codes "hello") (codes "l"))
    × (run_squeeze_only (run_squeeze_only (codes "hello") (codes "l")) (codes "l")
        ≡ run_squeeze_only (codes "hello") (codes "l"))
run_squeeze_only-IsSqueezed_example = run_squeeze_only-IsSqueezed (codes "hello") (codes "l")

vowels : expand_set (codes "aeiou") ≡ expanded (codes "aeiou")
unfolding expand_set
vowels = refl

cmd_tr-delete_example :
    cmd_tr hello true (codes "-d" ∷ codes "--" ∷ codes "aeiou" ∷ [])
    ≡ exits 0 (select (λ b. not (contains (codes "aeiou") b)) (codes "hello, world")) none
cmd_tr-delete_example = cmd_tr-delete (codes "hello, world") (codes "aeiou") (codes "aeiou") vowels

abbrev broken_input : Source
broken_input = record { bytes = codes "hel"; broken = true }

cmd_tr_broken_example : cmd_tr broken_input true (codes "a" ∷ codes "b" ∷ []) ≢ exits 0 [] none
cmd_tr_broken_example = cmd_tr_broken broken_input true (codes "a" ∷ codes "b" ∷ []) [] none refl
