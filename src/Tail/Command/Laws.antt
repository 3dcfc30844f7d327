-- ===== src/Tail/Command/Laws.antt =====
-- Runs of `cmdTail`, and how they go with `head`.
use ba.Base.{
  status_of, ℕ, ◌+◌, ◌-◌, ◌≡◌, refl, sym, ap, ap₂, ◌∙◌, Bool, true, false, List, [], ◌∷◌, ◌++◌,
  append-nil, some, Bytes, codes, arith, concat, take, drop, take-append-drop, concat-append,
  if◌then◌else◌, bytes_eq, File, ok,
}
use ba.Base.Lines.{read_lines, concat-read_lines}
use ba.Util.Options.{is_cluster, expand_short_options, expand_short_options-id}
use ba.Head.Count.{parse_count}
use ba.Head.Command.{cmd_head}
use ba.Head.Command.Laws.{cmd_head-lines}
use ba.Tail.Chunks.{last}
use ba.Tail.Lines.{emit_last_lines-last}
use ba.Tail.Command.{
  World, Options, fresh, parse_args, parse_tail_count, set_count, run_options, emit_lines, cmd_tail,
  Message, Effect, next, tail_files, followed_by, tail_file, header, follow_or_close, close_file,
  report,
}

-- The lines that a count selects.
abbrev pub selected : ℕ → Bool → Bytes → Bytes
selected n from_start s =
    concat (if from_start then drop (n - 1) (read_lines s) else last n (read_lines s))

emit_lines-selected :
    (n : ℕ) (from_start : Bool) (s : Bytes)
    → emit_lines n from_start (record { bytes = s; broken = false; closes = true })
      ≡ (selected n from_start s, false)
unfolding emit_lines
emit_lines-selected n true s = ap (λ t. (t, false)) (emit_last_lines-last n true s)
emit_lines-selected n false s = ap (λ t. (t, false)) (emit_last_lines-last n false s)

-- The options of `tail -n COUNT -- FILE`.
abbrev pub chosen : ℕ → Bool → Bytes → Options
chosen n from_start name = record fresh { count = n; from_start = from_start; names = name ∷ [] }

tail_files-one :
    (o : Options) (w : World) (show : Bool) (name out : Bytes) (messages : List Message)
    → tail_file o w show true true name (w.files name) ≡ (out, messages, next)
    → tail_files o w show true (name ∷ []) ≡ (out, messages, next)
unfolding tail_files followed_by
tail_files-one o w show name out messages e =
    ap (λ (t : Effect). followed_by t ([], [], next)) e
    ∙ ap₂ (λ (t : Bytes) (ms : List Message). (t, ms, next)) (append-nil out) (append-nil messages)

-- A run on one file is what happens to the file.
cmd_tail-tail_file :
    (w : World) (text name out : Bytes) (n : ℕ) (from_start : Bool) (f : File)
    (messages : List Message)
    → parse_tail_count text ≡ some (n, from_start)
    → is_cluster text ≡ false
    → bytes_eq text (codes "--") ≡ false
    → w.files name ≡ some f
    → tail_file (chosen n from_start name) w false true true name (some f) ≡ (out, messages, next)
    → cmd_tail w (codes "-n" ∷ text ∷ codes "--" ∷ name ∷ [])
      ≡ record { status = some (status_of messages); out = out; messages = messages }
unfolding cmd_tail
cmd_tail-tail_file w text name out n from_start f messages e c d fe one =
    ap (λ args. run_options w (parse_args args fresh)) untouched ∙ (ap (run_options w) parsed ∙ ran)
  where
    args : List Bytes
    args = codes "-n" ∷ text ∷ []

    untouched :
        expand_short_options (args ++ codes "--" ∷ name ∷ []) (codes "nc")
        ≡ codes "-n" ∷ text ∷ codes "--" ∷ name ∷ []
    untouched =
        expand_short_options-id args (name ∷ []) (codes "nc")
          (unfold is_cluster in ((refl, refl), ((c, d), tt)))

    o : Options
    o = chosen n from_start name

    parsed : parse_args (codes "-n" ∷ text ∷ codes "--" ∷ name ∷ []) fresh ≡ ok o
    parsed = unfold parse_args in rw (e, set_count)

    ran :
        run_options w (ok o)
        ≡ record { status = some (status_of messages); out = out; messages = messages }
    ran =
        let opened = ap (tail_file o w false true true name) fe ∙ one in
        unfold run_options report in rw (tail_files-one o w false name out messages opened)

-- `tail -n COUNT -- FILE`, for a count that is read and a file that opens, is read to its end,
-- flushed and closed: exit status 0, no message, and the last N lines, or those from number N on for
-- a count with a plus sign.
pub cmd_tail-lines :
    (w : World) (text name s : Bytes) (n : ℕ) (from_start : Bool)
    → parse_tail_count text ≡ some (n, from_start)
    → is_cluster text ≡ false
    → bytes_eq text (codes "--") ≡ false
    → w.files name ≡ some (record { bytes = s; broken = false; closes = true })
    → w.flushes name ≡ true
    → cmd_tail w (codes "-n" ∷ text ∷ codes "--" ∷ name ∷ [])
      ≡ record { status = some 0; out = selected n from_start s; messages = [] }
cmd_tail-lines w text name s n from_start e c d f fl =
    cmd_tail-tail_file w text name (selected n from_start s) n from_start
      (record { bytes = s; broken = false; closes = true }) [] e c d f
      (unfold tail_file header follow_or_close close_file in
        rw (fl, emit_lines-selected n from_start s, append-nil (selected n from_start s)))

-- `head -n A` and `tail -n B` of one file, where A is read as the count K and B, with a plus sign, as
-- K + 1, write two texts that make up the file. The file opens, is read to its end, flushed and closed.
pub cmd_head-cmd_tail :
    (w : World) (a b name s : Bytes) (k : ℕ)
    → parse_count a ≡ some k
    → parse_tail_count b ≡ some (k + 1, true)
    → (is_cluster a ≡ false) × (is_cluster b ≡ false)
    → (bytes_eq a (codes "--") ≡ false) × (bytes_eq b (codes "--") ≡ false)
    → w.files name ≡ some (record { bytes = s; broken = false; closes = true })
    → w.flushes name ≡ true
    → (let whole = codes "--" ∷ name ∷ [] in
        (cmd_head w.files true (codes "-n" ∷ a ∷ whole)).out
        ++ (cmd_tail w (codes "-n" ∷ b ∷ whole)).out)
      ≡ s
cmd_head-cmd_tail w a b name s k ea eb (ca, cb) (da, db) f fl =
    let same : k + 1 - 1 ≡ k = omega arith in
    rw
      (
        cmd_head-lines w.files a name s k ea ca da f,
        cmd_tail-lines w b name s (k + 1) true eb cb db f fl,
        same,
      )
      (sym (concat-append (take k (read_lines s)) (drop k (read_lines s)))
        ∙ (ap concat (take-append-drop k (read_lines s)) ∙ concat-read_lines s))
