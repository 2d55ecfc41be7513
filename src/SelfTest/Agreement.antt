-- ===== src/SelfTest/Agreement.antt =====
-- The promise of the copies in tools/audit-self-test.py ("Mirrors check_..."): a copy reports
-- something on the text of a file exactly where the check of the audit reports something.
pub mod Screens
pub mod Services
pub mod Native
pub mod Several
pub mod Targets
pub mod Counter
pub mod Service
pub mod Table
use e2ee_app.Audit.Literals.Hits.{search_file_iff}
use e2ee_app.Audit.Literals.{search_file}
use e2ee_app.Audit.Needs.Laws.{Meets, check_each_iff, check_joined_iff}
use e2ee_app.Audit.Needs.{check_joined, check_each, blank_each}
use e2ee_app.Audit.Repo.{File, absent, unreadable, content, Repo, Finding}
use e2ee_app.Base.{◌≡◌, ◌↔◌, All, Bool, true, Option, none, some, List, [], ◌∷◌, ◌++◌, refl}
use e2ee_app.Needs.Laws.{AreMet}
use e2ee_app.Needs.{Need, raw}
use e2ee_app.Py.Text.{Text, contains}
use e2ee_app.SelfTest.Laws.{run_each_iff, run_joined_iff, append-nil, cons_ne}
use e2ee_app.SelfTest.{Failure, run_each, run_joined}

-- What a case may give a copy: the text of a file, or `None`.
abbrev pub text_of : File → Option Text
text_of (content text) = some text
text_of _ = none

-- A check, and its copies on the texts of the same files.
pub record Pair : Type 0 where
  pub check : Repo → List Finding
  pub copies : Repo → List Failure

abbrev pub IsAgreement : Pair → Type 0
IsAgreement p = (repo : Repo) → (p.check repo ≡ []) ↔ (p.copies repo ≡ [])

-- Equal needs, whatever the messages say.
abbrev pub Same : List Need → List Need → (Text → Text) → Type 0
Same needs copy strip = (text : Text) → AreMet needs (strip text) ↔ AreMet copy (strip text)

iff_trans {ℓ} : {A B C : Type ℓ} → A ↔ B → B ↔ C → A ↔ C
iff_trans ab bc = (λ a. bc.0 (ab.0 a), λ c. ab.1 (bc.1 c))

iff_sym {ℓ} : {A B : Type ℓ} → A ↔ B → B ↔ A
iff_sym ab = (ab.1, ab.0)

prod_iff {ℓ} : {A B C D : Type ℓ} → A ↔ C → B ↔ D → (A × B) ↔ (C × D)
prod_iff p q = (λ (a, b). (p.0 a, q.0 b), λ (c, d). (p.1 c, q.1 d))

content_inj : {s t : Text} → content s ≡ content t → s ≡ t
content_inj e = cc

Meets-content :
    (strip : Text → Text) (needs : List Need) (text : Text)
    → Meets strip needs (content text) ↔ AreMet needs (strip text)
Meets-content strip needs text = (λ (t, e, all). rw (content_inj e) all, λ all. (text, refl, all))

-- Where there is no text, both report something.
pub both_report {ℓ} :
    {A B : Type ℓ} {x : A} {xs : List A} {y : B} {ys : List B} → ((x ∷ xs) ≡ []) ↔ ((y ∷ ys) ≡ [])
both_report = (λ h. absurd (cons_ne h), λ h. absurd (cons_ne h))

-- What a check and a copy that pass mean for a text is the same.
by_text :
    {A B : Type 0} (strip : Text → Text) (needs copy : List Need) (text : Text)
    → Same needs copy strip
    → A ↔ Meets strip needs (content text)
    → B ↔ AreMet copy (strip text)
    → A ↔ B
by_text strip needs copy text same a b =
    iff_trans a (iff_trans (Meets-content strip needs text) (iff_trans (same text) (iff_sym b)))

pub each_agree :
    (strip : Text → Text) (path : Text) (needs copy : List Need) (file : File)
    → Same needs copy strip
    → (check_each strip path needs file ≡ []) ↔ (run_each strip copy (text_of file) ≡ [])
unfolding check_each run_each
each_agree strip path needs copy absent same = both_report
each_agree strip path needs copy unreadable same = both_report
each_agree strip path needs copy (content text) same =
    by_text strip needs copy text same (check_each_iff strip path needs (content text))
      (run_each_iff strip copy text)

pub joined_agree :
    (strip : Text → Text) (path : Text) (needs copy : List Need) (file : File)
    → Same needs copy strip
    → (check_joined strip path needs file ≡ []) ↔ (run_joined strip copy (text_of file) ≡ [])
unfolding check_joined run_joined
joined_agree strip path needs copy absent same = both_report
joined_agree strip path needs copy unreadable same = both_report
joined_agree strip path needs copy (content text) same =
    by_text strip needs copy text same (check_joined_iff strip path needs (content text))
      (run_joined_iff strip copy text)

pub joined_each_agree :
    (strip : Text → Text) (path : Text) (needs copy : List Need) (file : File)
    → Same needs copy strip
    → (check_joined strip path needs file ≡ []) ↔ (run_each strip copy (text_of file) ≡ [])
unfolding check_joined run_each
joined_each_agree strip path needs copy absent same = both_report
joined_each_agree strip path needs copy unreadable same = both_report
joined_each_agree strip path needs copy (content text) same =
    by_text strip needs copy text same (check_joined_iff strip path needs (content text))
      (run_each_iff strip copy text)

-- The needles of a search and the needs of a copy.
abbrev pub SameAll : List Text → List Need → Type 0
SameAll needles copy = (text : Text) → All (λ n. contains n text ≡ true) needles ↔ AreMet copy text

search_iff :
    (path : Text) (needles : List Text) (copy : List Need) (text : Text)
    → SameAll needles copy
    → (search_file path needles (content text) ≡ []) ↔ AreMet copy text
search_iff path needles copy text same =
    iff_trans (search_file_iff path needles (content text)) (
      λ (t, e, all). (same text).0 (rw (content_inj e) all),
      λ all. (text, refl, (same text).1 all),
    )

pub search_each_agree :
    (path : Text) (needles : List Text) (copy : List Need) (file : File)
    → SameAll needles copy
    → (search_file path needles file ≡ []) ↔ (run_each raw copy (text_of file) ≡ [])
unfolding search_file run_each
search_each_agree path needles copy absent same = both_report
search_each_agree path needles copy unreadable same = both_report
search_each_agree path needles copy (content text) same =
    iff_trans (search_iff path needles copy text same) (iff_sym (run_each_iff raw copy text))

pub search_joined_agree :
    (path : Text) (needles : List Text) (copy : List Need) (file : File)
    → SameAll needles copy
    → (search_file path needles file ≡ []) ↔ (run_joined raw copy (text_of file) ≡ [])
unfolding search_file run_joined
search_joined_agree path needles copy absent same = both_report
search_joined_agree path needles copy unreadable same = both_report
search_joined_agree path needles copy (content text) same =
    iff_trans (search_iff path needles copy text same) (iff_sym (run_joined_iff raw copy text))

-- A check that goes on with the empty text reports that the file cannot be read all the same.
pub blank_agree :
    (strip : Text → Text) (path : Text) (needs copy : List Need) (file : File)
    → Same needs copy strip
    → (blank_each strip path needs file ≡ []) ↔ (run_each strip copy (text_of file) ≡ [])
unfolding blank_each check_each run_each
blank_agree strip path needs copy absent same = both_report
blank_agree strip path needs copy unreadable same = both_report
blank_agree strip path needs copy (content text) same =
    by_text strip needs copy text same (check_each_iff strip path needs (content text))
      (run_each_iff strip copy text)

-- Two agreements, one after the other.
pub append_agree :
    {A B : Type 0} {xs xs' : List A} {ys ys' : List B}
    → (xs ≡ []) ↔ (ys ≡ [])
    → (xs' ≡ []) ↔ (ys' ≡ [])
    → ((xs ++ xs') ≡ []) ↔ ((ys ++ ys') ≡ [])
append_agree {xs = xs} {xs' = xs'} {ys = ys} {ys' = ys'} p q =
    iff_trans (append-nil xs xs') (iff_trans (prod_iff p q) (iff_sym (append-nil ys ys')))

-- The same needs in the same order.
abbrev pub unchanged {ℓ} : {A : Type ℓ} → A ↔ A
unchanged = (λ a. a, λ a. a)

AreMet-append :
    (ms ns : List Need) (text : Text) → AreMet (ms ++ ns) text ↔ (AreMet ms text × AreMet ns text)
AreMet-append [] ns text = (λ h. (tt, h), λ p. p.1)
AreMet-append (m ∷ ms) ns text = (
  λ (e, h). let (a, b) = (AreMet-append ms ns text).0 h in ((e, a), b),
  λ ((e, a), b). (e, (AreMet-append ms ns text).1 (a, b)),
)

-- Two copies on one text are one copy with the needs of both.
run_each-append :
    (strip : Text → Text) (ms ns : List Need) (text : Option Text)
    → (run_each strip (ms ++ ns) text ≡ [])
      ↔ ((run_each strip ms text ++ run_each strip ns text) ≡ [])
unfolding run_each
run_each-append strip ms ns none = both_report
run_each-append strip ms ns (some text) = iff_trans (run_each_iff strip (ms ++ ns) text) (
    iff_trans (AreMet-append ms ns (strip text)) (
      iff_sym (
        iff_trans (append-nil (run_each strip ms (some text)) (run_each strip ns (some text)))
          (prod_iff (run_each_iff strip ms text) (run_each_iff strip ns text)))))

-- A check that several copies share: one copy is split off, the others follow.
pub split_agree :
    {A : Type 0} (strip : Text → Text) (ms ns : List Need) (text : Option Text) {xs : List A}
    {ys : List Failure}
    → (xs ≡ []) ↔ (run_each strip (ms ++ ns) text ≡ [])
    → (run_each strip ns text ≡ []) ↔ (ys ≡ [])
    → (xs ≡ []) ↔ ((run_each strip ms text ++ ys) ≡ [])
split_agree strip ms ns text p q =
    iff_trans p (iff_trans (run_each-append strip ms ns text) (append_agree unchanged q))

pub All-append :
    (xs ys : List Pair) → All IsAgreement xs → All IsAgreement ys → All IsAgreement (xs ++ ys)
All-append [] ys _ b = b
All-append (x ∷ xs) ys (p, a) b = (p, All-append xs ys a b)
