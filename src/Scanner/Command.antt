-- ===== src/Scanner/Command.antt =====
-- The command line of tools/lib/scanner.py, and the files that it writes.
use e2ee_app.Base.{
  ℕ, ◌≡◌, refl, sym, ap, ◌∙◌, Bool-cases, inl, inr, Option, none, some, List, [], ◌∷◌, ◌++◌,
  if◌then◌else◌,
}
use e2ee_app.Py.Text.{Text, codes, text_eq, text_eq→eq, decimal}
use e2ee_app.Scanner.{strip_file, match_file}

-- What the command prints on the standard error.
pub data Message : Type 0 where
  usage usage_strip usage_match silent : Message
  not_found : Text → Message
  stripped : Text → Text → ℕ → Message
  unknown_command : Text → Message

pub record Outcome : Type 0 where
  pub status : ℕ
  pub stdout : Text
  pub message : Message
  -- the path and the text of the file that the run writes
  pub written : Option (Text × Text)

abbrev refuse : ℕ → Message → Outcome
refuse status message = record { status = status; stdout = []; message = message; written = none }

-- `f"{lineno}|{binary}\n"`
abbrev match_line : ℕ × Text → Text
match_line (lineno, binary) = decimal lineno ++ b'|' ∷ (binary ++ b'\n' ∷ [])

abbrev match_output : List (ℕ × Text) → Text
match_output [] = []
match_output (m ∷ ms) = match_line m ++ match_output ms

-- The text of a path that is a file, or `none`.
abbrev pub Files : Type 0
Files = Text → Option Text

-- What `strip` does with its input, or without it.
abbrev pub strip_input : Text → Text → Option Text → Outcome
strip_input in_path out_path none = refuse 1 (not_found in_path)
strip_input in_path out_path (some text) = record {
  status = 0;
  stdout = [];
  message = stripped in_path out_path (strip_file text).1;
  written = some (out_path, (strip_file text).0);
}

abbrev pub match_input : Text → Option Text → Outcome
match_input in_path none = refuse 1 (not_found in_path)
match_input in_path (some text) = record {
  status = 0;
  stdout = match_output (match_file text);
  message = silent;
  written = none;
}

abbrev pub run_strip_args : Files → List Text → Outcome
run_strip_args read (i ∷ o ∷ []) = strip_input i o (read i)
run_strip_args read _ = refuse 2 usage_strip

abbrev pub run_match_args : Files → List Text → Outcome
run_match_args read (i ∷ []) = match_input i (read i)
run_match_args read _ = refuse 2 usage_match

-- `main`, on `sys.argv[1:]`.
unfoldable pub main : Files → List Text → Outcome
unfolding strip_file match_file decimal text_eq
main read [] = refuse 2 usage
main read (cmd ∷ args) =
    if text_eq cmd (codes "strip")
    then run_strip_args read args
    else if text_eq cmd (codes "match")
    then run_match_args read args
    else refuse 2 (unknown_command cmd)

match_args-written : (read : Files) (args : List Text) → (run_match_args read args).written ≡ none
match_args-written read [] = refl
match_args-written read (i ∷ []) = by_file (read i)
  where
    by_file : (f : Option Text) → (match_input i f).written ≡ none
    by_file none = refl
    by_file (some text) = refl
match_args-written read (i ∷ j ∷ rest) = refl

strip_input-written :
    (i o : Text) (f : Option Text) (w : Text × Text)
    → (strip_input i o f).written ≡ some w
    → (text : Text) × (f ≡ some text) × (w ≡ (o, (strip_file text).0))
strip_input-written i o none w h = cc
strip_input-written i o (some text) w h = (text, refl, cc)

strip_args-written :
    (read : Files) (args : List Text) (w : Text × Text)
    → (run_strip_args read args).written ≡ some w
    → (i : Text) × (text : Text) × (args ≡ i ∷ w.0 ∷ [])
      × (read i ≡ some text)
      × (w.1 ≡ (strip_file text).0)
strip_args-written read [] w h = cc
strip_args-written read (i ∷ []) w h = cc
strip_args-written read (i ∷ o ∷ []) w h =
    let (text, found, same) = strip_input-written i o (read i) w h in
    (
      i,
      text,
      ap (λ p. i ∷ p ∷ []) (sym (ap (λ (v : Text × Text). v.0) same)),
      found,
      ap (λ (v : Text × Text). v.1) same,
    )
strip_args-written read (i ∷ o ∷ x ∷ rest) w h = cc

-- A run that writes a file was called as `strip <input> <output>` with an input that is there; it
-- writes the stripped text of the input, to the output and nowhere else.
pub main-written :
    (read : Files) (args : List Text) (w : Text × Text)
    → (main read args).written ≡ some w
    → (i : Text) × (text : Text) × (args ≡ codes "strip" ∷ i ∷ w.0 ∷ [])
      × (read i ≡ some text)
      × (w.1 ≡ (strip_file text).0)
unfolding main
main-written read [] w h = cc
main-written read (cmd ∷ args) w h = elim (Bool-cases (text_eq cmd (codes "strip"))) [
  | inl e ↦
      let (i, text, shape, found, same) = strip_args-written read args w (rw e at h) in
      (
        i,
        text,
        ap (◌∷◌ cmd) shape ∙ ap (λ c. c ∷ i ∷ w.0 ∷ []) (text_eq→eq cmd (codes "strip") e),
        found,
        same,
      )
  | inr e ↦ elim (Bool-cases (text_eq cmd (codes "match"))) [
    | inl f ↦
        let silent_run = match_args-written read args in
        absurd (none_some (sym silent_run ∙ rw (e, f) at h))
    | inr f ↦ absurd (none_some (rw (e, f) at h))
  ]
]
  where
    none_some : {v : Text × Text} → none ≡ some v → ⊥
    none_some p = cc
