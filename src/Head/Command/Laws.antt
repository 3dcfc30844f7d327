-- ===== src/Head/Command/Laws.antt =====
-- What `head` writes, and how it goes with `tail`.
use ba.Base.{
  ℕ, zero, suc, ◌+◌, ◌-◌, ◌≡◌, refl, sym, ap, ◌∙◌, true, false, List, [], ◌∷◌, ◌++◌, append-nil,
  some, Bytes, codes, arith, concat, take, drop, take-append-drop, Files, ok, bytes_eq,
  concat-append,
}
use ba.Base.Lines.{read_lines, concat-read_lines}
use ba.Util.Options.{is_cluster, expand_short_options, expand_short_options-id}
use ba.Head.Count.{parse_count}
use ba.Head.Command.{
  Options, fresh, first_lines, parse_args, set_count, run_options, head_files, head_file, body,
  header, report, reading_error, cmd_head,
}
use ba.Tail.{emit_last_lines}
use ba.Tail.Lines.{emit_last_lines-last}

first_lines-take : (n : ℕ) (lines : List Bytes) → first_lines n lines ≡ concat (take n lines)
unfolding first_lines
first_lines-take zero lines = refl
first_lines-take (suc n) [] = refl
first_lines-take (suc n) (line ∷ lines) = ap (λ t. line ++ t) (first_lines-take n lines)

-- `head -n K` and `tail -n +(K+1)` of one input cut it in two: their outputs make up the input.
pub first_lines-emit_last_lines :
    (k : ℕ) (s : Bytes) → first_lines k (read_lines s) ++ emit_last_lines (k + 1) true s ≡ s
first_lines-emit_last_lines k s =
    let e : k + 1 - 1 ≡ k = omega arith in
    rw (first_lines-take k (read_lines s), emit_last_lines-last (k + 1) true s, e)
      (sym (concat-append (take k (read_lines s)) (drop k (read_lines s)))
        ∙ (ap concat (take-append-drop k (read_lines s)) ∙ concat-read_lines s))

-- `head -n N -- FILE`, for a count that is read as N and a file that opens, is read to its end and
-- closes: exit status 0, no message, and the first N lines of the file on standard output.
pub cmd_head-lines :
    (files : Files) (text name s : Bytes) (n : ℕ)
    → parse_count text ≡ some n
    → is_cluster text ≡ false
    → bytes_eq text (codes "--") ≡ false
    → files name ≡ some (record { bytes = s; broken = false; closes = true })
    → cmd_head files true (codes "-n" ∷ text ∷ codes "--" ∷ name ∷ [])
      ≡ record { status = 0; out = concat (take n (read_lines s)); messages = [] }
unfolding cmd_head
cmd_head-lines files text name s n e c d f =
    ap (λ args. run_options files true (parse_args args fresh)) untouched
    ∙ (ap (run_options files true) parsed ∙ ran)
  where
    args : List Bytes
    args = codes "-n" ∷ text ∷ []

    untouched :
        expand_short_options (args ++ codes "--" ∷ name ∷ []) (codes "nc")
        ≡ codes "-n" ∷ text ∷ codes "--" ∷ name ∷ []
    untouched =
        expand_short_options-id args (name ∷ []) (codes "nc")
          (unfold is_cluster in ((refl, refl), ((c, d), tt)))

    chosen : Options
    chosen = record fresh { count = n; files = name ∷ [] }

    parsed : parse_args (codes "-n" ∷ text ∷ codes "--" ∷ name ∷ []) fresh ≡ ok chosen
    parsed = unfold parse_args in rw (e, set_count)

    ran :
        run_options files true (ok chosen)
        ≡ record { status = 0; out = concat (take n (read_lines s)); messages = [] }
    ran =
        unfold run_options head_files head_file body header report reading_error in
        rw (
          f,
          head_file,
          first_lines-take n (read_lines s),
          append-nil (concat (take n (read_lines s))),
        )
