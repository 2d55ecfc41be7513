-- ===== src/Py/Text/Split.antt =====
-- Splitting at a separator and joining again, and searching for a substring.
use e2ee_app.Base.{
  ℕ, ◌≡◌, ◌≢◌, refl, ap, ◌∙◌, false, List, [], ◌∷◌, ◌++◌, ◌==◌, ==_refl, All, Bool-cases, inl, inr,
  or-eq-false,
}
use e2ee_app.Py.Text.{Text, cons_first, split, join, contains, starts_with}

-- The separator does not occur in the text.
abbrev pub IsFree : ℕ → Text → Type 0
IsFree sep = All (λ c. (c == sep) ≡ false)

All-cons_first :
    (sep c : ℕ) (ls : List Text)
    → (c == sep) ≡ false
    → All (IsFree sep) ls
    → All (IsFree sep) (cons_first c ls)
All-cons_first sep c [] h k = ((h, tt), tt)
All-cons_first sep c (l ∷ ls) h k = ((h, k.0), k.1)

-- No piece holds the separator.
pub split-IsFree : (sep : ℕ) (s : Text) → All (IsFree sep) (split sep s)
unfolding split
split-IsFree sep [] = (tt, tt)
split-IsFree sep (c ∷ s) = elim (Bool-cases (c == sep)) [
  | inl e ↦ rw e (tt, split-IsFree sep s)
  | inr e ↦ rw e (All-cons_first sep c (split sep s) e (split-IsFree sep s))
]

pub split-ne-nil : (sep : ℕ) (s : Text) → split sep s ≢ []
unfolding split
split-ne-nil sep [] h = cc
split-ne-nil sep (c ∷ s) h = elim (Bool-cases (c == sep)) [
  | inl e ↦ cc (rw e at h)
  | inr e ↦ cons_first-ne-nil (split sep s) (rw e at h)
]
  where
    cons_first-ne-nil : (ls : List Text) → cons_first c ls ≢ []
    cons_first-ne-nil [] h = cc
    cons_first-ne-nil (l ∷ ls) h = cc

split_free : (sep : ℕ) (p : Text) → IsFree sep p → split sep p ≡ p ∷ []
unfolding split
split_free sep [] h = refl
split_free sep (c ∷ p) h = rw (h.0, split_free sep p h.1)

split-append : (sep : ℕ) (p s : Text) → IsFree sep p → split sep (p ++ sep ∷ s) ≡ p ∷ split sep s
unfolding split
split-append sep [] s h = rw ==_refl
split-append sep (c ∷ p) s h = rw (h.0, split-append sep p s h.1)

-- Pieces that do not hold the separator come back from their join.
pub split-join :
    (sep : ℕ) (ps : List Text) → ps ≢ [] → All (IsFree sep) ps → split sep (join (sep ∷ []) ps) ≡ ps
unfolding join
split-join sep [] ne h = absurd (ne refl)
split-join sep (p ∷ []) ne h = split_free sep p h.0
split-join sep (p ∷ q ∷ ps) ne h =
    split-append sep p _ h.0 ∙ ap (◌∷◌ p) (split-join sep (q ∷ ps) (λ e. cc) h.1)

-- A text without a substring neither begins with it nor has it further on.
pub contains-cons :
    (needle : Text) (c : ℕ) (s : Text)
    → contains needle (c ∷ s) ≡ false
    → (starts_with needle (c ∷ s) ≡ false) × (contains needle s ≡ false)
unfolding contains
contains-cons needle c s h = or-eq-false {a = starts_with needle (c ∷ s)} {b = contains needle s} h
