-- ===== src/Scanner/Lines.antt =====
-- What the comment stripper writes: a part of the line, in order; all of a plain line; nothing
-- inside a block; and as many lines as it reads.
use e2ee_app.Base.{
  ℕ, zero, suc, ◌≤◌, ◌≡◌, ◌≢◌, refl, ap, Bool, true, false, none, some, List, inl, inr, [], ◌∷◌,
  length, drop, All, Bool-cases, ◌==◌, ◌||◌, if◌then◌else◌, arith,
}
use e2ee_app.Py.Text.{Text, codes, contains, is_space, split}
use e2ee_app.Py.Text.Split.{IsFree, split-IsFree, split-ne-nil, split-join, contains-cons}
use e2ee_app.Scanner.{
  Blocks, outside, step_code, step_block, step, strip_from, strip_comments_line, strip_lines,
  strip_file, line_comment, leading_space,
}
use e2ee_app.Scanner.State.{stops, writes, moves, round}

-- The first text is the second with some characters left out.
pub data IsPart : Text → Text → Type 0 where
  nil : IsPart [] []
  keep : {c : ℕ} {t s : Text} → IsPart t s → IsPart (c ∷ t) (c ∷ s)
  omit : {c : ℕ} {t s : Text} → IsPart t s → IsPart t (c ∷ s)

IsPart-nil : (s : Text) → IsPart [] s
IsPart-nil [] = nil
IsPart-nil (c ∷ s) = omit (IsPart-nil s)

IsPart-drop : (n : ℕ) (t s : Text) → IsPart t (drop n s) → IsPart t s
IsPart-drop zero t s h = h
IsPart-drop (suc n) t [] h = h
IsPart-drop (suc n) t (c ∷ s) h = omit (IsPart-drop n t s h)

IsPart-leading_space : (s : Text) → IsPart (leading_space s) s
IsPart-leading_space [] = nil
IsPart-leading_space (c ∷ s) = elim (Bool-cases (is_space c)) [
  | inl e ↦ rw e (keep (IsPart-leading_space s))
  | inr e ↦ rw e (IsPart-nil (c ∷ s))
]

line_comment-eq-some :
    (line : Text) {white : Text} → line_comment line ≡ some white → leading_space line ≡ white
unfolding line_comment
line_comment-eq-some line h = ground arith

strip_from-IsPart :
    (fuel : ℕ) (first : Bool) (line : Text) (b : Blocks)
    → IsPart (strip_from fuel first line b).0 line
unfolding strip_from
strip_from-IsPart zero first line b = IsPart-nil line
strip_from-IsPart (suc fuel) first [] b = nil
strip_from-IsPart (suc fuel) first (c ∷ s) b = elim (round first c s b) [
  | stops white e run ↦
      rw run (rw (line_comment-eq-some (c ∷ s) e) at (IsPart-leading_space (c ∷ s)))
  | writes run ↦ rw run (keep (strip_from-IsPart fuel false s b))
  | moves n b' pos _ run ↦
      rw run (IsPart-drop n _ (c ∷ s) (strip_from-IsPart fuel false (drop n (c ∷ s)) b'))
]

-- What is left of a line is the line with characters left out: nothing is added or reordered.
pub strip_comments_line-IsPart :
    (line : Text) (b : Blocks) → IsPart (strip_comments_line line b).0 line
unfolding strip_comments_line
strip_comments_line-IsPart line b = strip_from-IsPart (length line) true line b

All-IsPart : (P : ℕ → Type 0) {t s : Text} → IsPart t s → All P s → All P t
All-IsPart P nil h = tt
All-IsPart P (keep p) h = (h.0, All-IsPart P p h.1)
All-IsPart P (omit p) h = All-IsPart P p h.1

strip_lines-IsFree :
    (sep : ℕ) (lines : List Text) (b : Blocks)
    → All (IsFree sep) lines
    → All (IsFree sep) (strip_lines lines b)
unfolding strip_lines
strip_lines-IsFree sep [] b h = tt
strip_lines-IsFree sep (line ∷ lines) b h = (
  All-IsPart (λ c. (c == sep) ≡ false) (strip_comments_line-IsPart line b) h.0,
  strip_lines-IsFree sep lines _ h.1,
)

pub length-strip_lines :
    (lines : List Text) (b : Blocks) → length (strip_lines lines b) ≡ length lines
unfolding strip_lines
length-strip_lines [] b = refl
length-strip_lines (line ∷ lines) b = ap suc (length-strip_lines lines _)

strip_lines-ne-nil : (lines : List Text) (b : Blocks) → lines ≢ [] → strip_lines lines b ≢ []
unfolding strip_lines
strip_lines-ne-nil [] b h e = h refl
strip_lines-ne-nil (line ∷ lines) b h e = cc

-- The second lines are the first ones, each stripped in the state that the line before it leaves;
-- the first line is stripped in the given state.
pub data AreStripped : Blocks → List Text → List Text → Type 0 where
  done : {b : Blocks} → AreStripped b [] []
  next :
      {b after : Blocks} {line out : Text} {lines outs : List Text}
      → strip_comments_line line b ≡ (out, after)
      → AreStripped after lines outs
      → AreStripped b (line ∷ lines) (out ∷ outs)

strip_lines-AreStripped :
    (lines : List Text) (b : Blocks) → AreStripped b lines (strip_lines lines b)
unfolding strip_lines
strip_lines-AreStripped [] b = AreStripped.done
strip_lines-AreStripped (line ∷ lines) b = AreStripped.next refl (strip_lines-AreStripped lines _)

-- The lines of the file that `strip` writes are those of the input, the first one stripped outside
-- every block and each other one in the state of the block comments that the line before it leaves,
-- and the number that it returns is the number of lines of the input.
pub strip_file-lines :
    (text : Text)
    → AreStripped outside (split b'\n' text) (split b'\n' (strip_file text).0)
      × ((strip_file text).1 ≡ length (split b'\n' text))
unfolding strip_file
strip_file-lines text = (
  rw
      (split-join b'\n' (strip_lines (split b'\n' text) outside)
        (strip_lines-ne-nil (split b'\n' text) outside (split-ne-nil b'\n' text))
        (strip_lines-IsFree b'\n' (split b'\n' text) outside (split-IsFree b'\n' text)))
      (strip_lines-AreStripped (split b'\n' text) outside),
  length-strip_lines (split b'\n' text) outside,
)

strip_from_plain :
    (fuel : ℕ) (line : Text)
    → length line ≤ fuel
    → contains (codes "/*") line ≡ false
    → contains (codes "<#") line ≡ false
    → contains (codes "<!--") line ≡ false
    → strip_from fuel false line outside ≡ (line, outside)
unfolding strip_from step step_code
strip_from_plain zero [] h a b c = refl
strip_from_plain zero (x ∷ s) h a b c = absurd (omega arith)
strip_from_plain (suc fuel) [] h a b c = refl
strip_from_plain (suc fuel) (x ∷ s) h a b c =
    let a' = contains-cons (codes "/*") x s a in
    let b' = contains-cons (codes "<#") x s b in
    let c' = contains-cons (codes "<!--") x s c in
    rw (a'.0, b'.0, c'.0, strip_from_plain fuel s (omega arith) a'.1 b'.1 c'.1)

-- Outside every block, a line that is no line comment and holds none of the three opening marks
-- is left as it is.
pub strip_comments_line_plain :
    (line : Text)
    → line_comment line ≡ none
    → contains (codes "/*") line ≡ false
    → contains (codes "<#") line ≡ false
    → contains (codes "<!--") line ≡ false
    → strip_comments_line line outside ≡ (line, outside)
unfolding strip_comments_line
strip_comments_line_plain [] h a b c = refl
strip_comments_line_plain (x ∷ s) h a b c =
    let a' = contains-cons (codes "/*") x s a in
    let b' = contains-cons (codes "<#") x s b in
    let c' = contains-cons (codes "<!--") x s c in
    unfold strip_from step step_code in
    rw (a'.0, b'.0, c'.0, h, strip_from_plain (length s) s (omega arith) a'.1 b'.1 c'.1)

-- The mark that ends the open block.
abbrev pub closer : Blocks → Text
closer b = if b.in_c then codes "*/" else if b.in_pwsh then codes "#>" else codes "-->"

abbrev pub is_open : Blocks → Bool
is_open b = b.in_c || b.in_pwsh || b.in_xml

strip_from_inside :
    (fuel : ℕ) (first : Bool) (line : Text) (b : Blocks)
    → is_open b ≡ true
    → contains (closer b) line ≡ false
    → strip_from fuel first line b ≡ ([], b)
unfolding strip_from step step_block
strip_from_inside zero first line b o h = refl
strip_from_inside (suc fuel) first [] b o h = refl
strip_from_inside (suc fuel) first (c ∷ s) b o h =
    let (here, later) = contains-cons (closer b) c s h in
    let rest = strip_from_inside fuel false s b o later in ground (arith, rest)

-- Inside a block, a line without the mark that ends it leaves nothing, and the block stays open.
strip_comments_line_inside :
    (line : Text) (b : Blocks)
    → is_open b ≡ true
    → contains (closer b) line ≡ false
    → strip_comments_line line b ≡ ([], b)
unfolding strip_comments_line
strip_comments_line_inside line b o h = strip_from_inside (length line) true line b o h
