-- ===== src/Audit/Literals/Hits.antt =====
-- When the literal checks pass: what must be in which file.
use e2ee_app.Audit.Literals.{
  missing_needles, report_missing, search_file, holds, is_missing, Hit, hit, no_hit, add_missing,
  find_hit,
}
use e2ee_app.Audit.Repo.{File, absent, unreadable, content, Repo}
use e2ee_app.Base.{
  ◌≡◌, refl, ap, ◌∙◌, ◌↔◌, inl, inr, Bool, true, false, List, [], ◌∷◌, All, In, here, there,
  Bool-cases,
}
use e2ee_app.Py.Text.{Text, contains}

-- A file that can be read and contains each of the texts.
abbrev pub HoldsAll : List Text → File → Type 0
HoldsAll needles f = (text : Text) × (f ≡ content text) × All (λ n. contains n text ≡ true) needles

missing_needles-All :
    (text : Text) (needles : List Text)
    → missing_needles text needles ≡ []
    → All (λ n. contains n text ≡ true) needles
unfolding missing_needles
missing_needles-All text [] h = tt
missing_needles-All text (n ∷ ns) h = elim (Bool-cases (contains n text)) [
  | inl e ↦ (e, missing_needles-All text ns (rw e at h))
  | inr e ↦ absurd (cons_ne (rw e at h))
]
  where
    cons_ne : (n ∷ missing_needles text ns) ≡ [] → ⊥
    cons_ne p = cc

All-missing_needles :
    (text : Text) (needles : List Text)
    → All (λ n. contains n text ≡ true) needles
    → missing_needles text needles ≡ []
unfolding missing_needles
All-missing_needles text [] h = refl
All-missing_needles text (n ∷ ns) (e, h) = rw e (All-missing_needles text ns h)

report_missing-nil : (path : Text) (ns : List Text) → report_missing path ns ≡ [] → ns ≡ []
report_missing-nil path [] h = refl
report_missing-nil path (n ∷ ns) h = cc

search_file-nil :
    (path : Text) (needles : List Text) (f : File)
    → search_file path needles f ≡ []
    → HoldsAll needles f
unfolding search_file
search_file-nil path needles absent h = cc
search_file-nil path needles unreadable h = cc
search_file-nil path needles (content text) h = (
  text,
  refl,
  missing_needles-All text needles (report_missing-nil path (missing_needles text needles) h),
)

-- A search for literals reports nothing exactly where the file is there, can be read and contains
-- all of them.
pub search_file_iff :
    (path : Text) (needles : List Text) (f : File)
    → (search_file path needles f ≡ []) ↔ HoldsAll needles f
unfolding search_file
search_file_iff path needles f = (
  search_file-nil path needles f,
  λ (text, e, all).
      ap (search_file path needles) e
      ∙ ap (report_missing path) (All-missing_needles text needles all),
)

-- One of the files can be read and contains the text.
abbrev pub SomeHolds : Repo → Text → List Text → Type 0
SomeHolds repo needle paths = (p : Text) × In p paths × (holds needle (repo.file p) ≡ true)

-- What the loop over the targets returns: a target that holds the needle, or the targets that
-- are missing, where none holds it.
abbrev pub IsHit : Repo → Text → List Text → Hit → Type 0
IsHit repo needle paths (hit p) = In p paths × (holds needle (repo.file p) ≡ true)
IsHit repo needle paths (no_hit missing) =
    All (λ p. holds needle (repo.file p) ≡ false) paths
    × ((p : Text) → In p missing → In p paths × (is_missing (repo.file p) ≡ true))

add_missing-IsHit :
    (repo : Repo) (needle t : Text) (ts : List Text) (b : Bool) (r : Hit)
    → is_missing (repo.file t) ≡ b
    → holds needle (repo.file t) ≡ false
    → IsHit repo needle ts r
    → IsHit repo needle (t ∷ ts) (add_missing b t r)
add_missing-IsHit repo needle t ts b (hit p) e f (m, g) = (there m, g)
add_missing-IsHit repo needle t ts true (no_hit ms) e f (all, from) = ((f, all), froms)
  where
    froms : (p : Text) → In p (t ∷ ms) → In p (t ∷ ts) × (is_missing (repo.file p) ≡ true)
    froms _ here = (here, e)
    froms p (there m) = (there (from p m).0, (from p m).1)
add_missing-IsHit repo needle t ts false (no_hit ms) e f (all, from) =
    ((f, all), λ p m. (there (from p m).0, (from p m).1))

-- The loop over the targets returns a target that can be read and contains the text, or, where
-- there is none, only targets that are missing or unreadable.
pub find_hit-IsHit :
    (repo : Repo) (needle : Text) (paths : List Text)
    → IsHit repo needle paths (find_hit repo needle paths)
unfolding find_hit
find_hit-IsHit repo needle [] = (tt, λ p m. elim m [ ])
find_hit-IsHit repo needle (t ∷ ts) = elim (Bool-cases (holds needle (repo.file t))) [
  | inl e ↦ rw e (here, e)
  | inr e ↦ rw e (
      add_missing-IsHit repo needle t ts (is_missing (repo.file t)) (find_hit repo needle ts) refl e
        (find_hit-IsHit repo needle ts))
]
