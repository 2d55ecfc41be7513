-- ===== src/Dex/Strings.antt =====
-- What the byte scanner extracts, and when all tokens are found.
use e2ee_app.Base.{
  ℕ, zero, suc, ◌≤◌, ◌<◌, ◌≡◌, refl, sym, ◌∙◌, List, [], ◌∷◌, length, Bool-cases, inl, inr,
  if◌then◌else◌, arith,
}
use e2ee_app.Dex.{
  is_printable, printable_run, after_run, keep_run, extract_from, extract_ascii_strings,
}
use e2ee_app.Py.Text.{Text}

-- The first piece with one more character.
abbrev grow : ℕ → List Text → List Text
grow c [] = (c ∷ []) ∷ []
grow c (p ∷ ps) = (c ∷ p) ∷ ps

-- The bytes cut at every byte that is not printable.
abbrev pub pieces : Text → List Text
pieces [] = [] ∷ []
pieces (c ∷ s) = let rest = pieces s in if is_printable c then grow c rest else [] ∷ rest

-- The pieces of a length, in their order.
abbrev pub long_pieces : ℕ → List Text → List Text
long_pieces n [] = []
long_pieces n (p ∷ ps) = keep_run n p (long_pieces n ps)

abbrev later_pieces : Text → List Text
later_pieces [] = []
later_pieces (c ∷ s) = pieces s

pieces-run : (s : Text) → pieces s ≡ printable_run s ∷ later_pieces (after_run s)
unfolding printable_run after_run
pieces-run [] = refl
pieces-run (c ∷ s) = elim (Bool-cases (is_printable c)) [
  | inl e ↦ rw (e, pieces-run s)
  | inr e ↦ rw e
]

no_long : (n : ℕ) (rest : List Text) → 0 < n → keep_run n [] rest ≡ rest
no_long n rest h = ground arith

long_pieces-later :
    (n : ℕ) (s : Text)
    → 0 < n
    → long_pieces n (pieces (after_run s)) ≡ long_pieces n (later_pieces (after_run s))
unfolding after_run
long_pieces-later n [] h = no_long n [] h
long_pieces-later n (c ∷ s) h = elim (Bool-cases (is_printable c)) [
  | inl e ↦ rw e (long_pieces-later n s h)
  | inr e ↦ rw (e, e) (no_long n (long_pieces n (pieces s)) h)
]

length-after_run : (s : Text) → length (after_run s) ≤ length s
unfolding after_run
length-after_run [] = omega arith
length-after_run (c ∷ s) = elim (Bool-cases (is_printable c)) [
  | inl e ↦ rw e (omega (arith, length-after_run s))
  | inr e ↦ rw e (omega arith)
]

extract_from-pieces :
    (fuel n : ℕ) (s : Text)
    → 0 < n
    → length s ≤ fuel
    → extract_from fuel n s ≡ long_pieces n (pieces s)
unfolding extract_from
extract_from-pieces zero n [] h short = sym (no_long n [] h)
extract_from-pieces zero n (c ∷ s) h short = absurd (omega arith)
extract_from-pieces (suc fuel) n [] h short = sym (no_long n [] h)
extract_from-pieces (suc fuel) n (c ∷ s) h short = elim (Bool-cases (is_printable c)) [
  | inr e ↦
      rw e (
        extract_from-pieces fuel n s h (omega arith) ∙ sym (no_long n (long_pieces n (pieces s)) h))
  | inl e ↦
      unfold printable_run after_run in
      rw (
        e,
        pieces-run s,
        extract_from-pieces fuel n (after_run s) h (omega (arith, length-after_run s)),
        long_pieces-later n s h,
      )
]

-- The scanner extracts exactly the runs of printable bytes that are long enough, whole and in
-- their order: the pieces that the other bytes cut the data into, less the short ones.
pub extract_ascii_strings-pieces :
    (bytes : Text) (min_len : ℕ)
    → 0 < min_len
    → extract_ascii_strings bytes min_len ≡ long_pieces min_len (pieces bytes)
unfolding extract_ascii_strings
extract_ascii_strings-pieces bytes min_len h =
    extract_from-pieces (length bytes) min_len bytes h (omega arith)
