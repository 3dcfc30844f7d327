-- ===== src/Uniq/Groups/Laws.antt =====
-- The loop of `cmdUniq` against the runs of lines with equal keys.
use ba.Base.{
  ℕ, ◌+◌, ◌<◌, ◌≡◌, ◌≢◌, refl, sym, ◌∙◌, Bool, true, false, not, ◌&&◌, ◌||◌, List, [], ◌∷◌, ◌++◌,
  Bytes, arith, concat, append-nil, if◌then◌else◌, bytes_eq, replicate, Bool-cases, inl, inr, leb,
  ltb,
}
use ba.Uniq.Emit.{Mode, absent, plain, emit, emit_group, line_of}
use ba.Base.Decimal.{decimal, pad_left}
use ba.Uniq.Groups.{uniq_loop, uniq_lines}

-- A run: its first line, and how many lines it has.
abbrev pub Run : Type 0
Run = Bytes × ℕ

module _ (key : Bytes → Bytes) where
  abbrev pub runs_from : Bytes → ℕ → List Bytes → List Run
  runs_from cur n [] = (cur, n) ∷ []
  runs_from cur n (line ∷ lines) =
      if bytes_eq (key line) (key cur)
      then runs_from cur (n + 1) lines
      else (cur, n) ∷ runs_from line 1 lines

  abbrev pub runs : List Bytes → List Run
  runs [] = []
  runs (line ∷ lines) = runs_from line 1 lines

  -- The first run of a list, if any, has another key than `k`.
  abbrev pub StartsUnlike : Bytes → List Run → Type 0
  StartsUnlike k [] = Unit
  StartsUnlike k ((line, n) ∷ rs) = k ≢ key line

  -- Each run has a line, and two neighbours have different keys.
  abbrev pub AreRuns : List Run → Type 0
  AreRuns [] = Unit
  AreRuns ((line, n) ∷ rs) = (0 < n) × StartsUnlike (key line) rs × AreRuns rs

  abbrev pub keys_of : List Run → List Bytes
  keys_of [] = []
  keys_of ((line, n) ∷ rs) = replicate n (key line) ++ keys_of rs

  abbrev pub outputs : (Bytes → ℕ → Bytes) → List Run → Bytes
  outputs f [] = []
  outputs f ((line, n) ∷ rs) = f line n ++ outputs f rs

  uniq_loop-outputs :
      (m : Mode) (f : Bytes → ℕ → Bytes)
      → ((printed : Bool) (line : Bytes) (n : ℕ) (more : Bool)
          → (emit m printed line n more).0 ≡ f line n)
      → (printed : Bool) (cur : Bytes) (n : ℕ) (lines : List Bytes)
      → uniq_loop m key printed cur (key cur) n lines ≡ outputs f (runs_from cur n lines)
  unfolding uniq_loop
  uniq_loop-outputs m f h printed cur n [] = h printed cur n false ∙ sym (append-nil (f cur n))
  uniq_loop-outputs m f h printed cur n (line ∷ lines) =
      elim (Bool-cases (bytes_eq (key line) (key cur))) [
        | inl e ↦ rw e (uniq_loop-outputs m f h printed cur (n + 1) lines)
        | inr e ↦
            let ih = uniq_loop-outputs m f h ((emit m printed cur n true).1) line 1 lines in
            rw (e, h printed cur n true, ih)
      ]

-- The count in seven columns and a blank before a line, for `-c`.
abbrev pub counted : Mode → Bytes → ℕ → Bytes
counted m line n = if m.count then pad_left 7 (decimal n) ++ 32 ∷ line_of m line else line_of m line

-- The runs that `-d` and `-u` leave.
abbrev pub entry : Mode → Bytes → ℕ → Bytes
entry m line n =
    if (m.only_dup && leb n 1) || (m.only_uniq && ltb 1 n) then [] else counted m line n

gate :
    (a b p : Bool) (out : Bytes)
    → (if◌then◌else◌ {A = Bytes × Bool} (not a && not b) (out ++ [], true) ([], p)).0
      ≡ (if a || b then [] else out)
gate true b p out = refl
gate false true p out = refl
gate false false p out = append-nil out

emit-plain :
    (m : Mode)
    → m.all_repeat ≡ absent
    → m.group_mode ≡ absent
    → (p : Bool) (l : Bytes) (n : ℕ) (more : Bool) → (emit m p l n more).0 ≡ entry m l n
unfolding emit emit_group
emit-plain m a g p l n more =
    rw (a, g) (gate (m.only_dup && leb n 1) (m.only_uniq && ltb 1 n) p (counted m l n))

-- Without `-D` and `--group`, `uniq` writes for each run in turn its first line, with its count
-- before it for `-c`, and leaves out the runs of one line for `-d` and the longer ones for `-u`.
pub uniq_lines-plain :
    (m : Mode) (key : Bytes → Bytes) (lines : List Bytes)
    → m.all_repeat ≡ absent
    → m.group_mode ≡ absent
    → uniq_lines m key lines ≡ outputs key (entry m) (runs key lines)
unfolding uniq_lines
uniq_lines-plain m key [] a g = refl
uniq_lines-plain m key (line ∷ lines) a g =
    uniq_loop-outputs key m (entry m) (λ p l n more. emit-plain m a g p l n more) false line 1 lines

-- The copies that `-D` writes.
abbrev pub copies : Mode → Bytes → ℕ → Bytes
copies m line n = if leb n 1 then [] else concat (replicate n (line_of m line))

emit-copies :
    (m : Mode)
    → m.all_repeat ≡ plain
    → m.only_uniq ≡ false
    → m.count ≡ false
    → (p : Bool) (l : Bytes) (n : ℕ) (more : Bool) → (emit m p l n more).0 ≡ copies m l n
unfolding emit emit_group
emit-copies m a u c p l n more =
    rw (a, u, c) (ground (arith, append-nil (concat (replicate n (line_of m l)))))

-- `uniq -D` without `-u` writes for each run of more than one line its first line, as many times as
-- the run has lines: of lines that differ but have equal keys it writes the first one only.
pub uniq_lines-copies :
    (m : Mode) (key : Bytes → Bytes) (lines : List Bytes)
    → m.all_repeat ≡ plain
    → m.only_uniq ≡ false
    → m.count ≡ false
    → uniq_lines m key lines ≡ outputs key (copies m) (runs key lines)
unfolding uniq_lines
uniq_lines-copies m key [] a u c = refl
uniq_lines-copies m key (line ∷ lines) a u c =
    uniq_loop-outputs key m (copies m) (λ p l n more. emit-copies m a u c p l n more) false line 1
      lines
