-- ===== src/Audit/Needs/Laws.antt =====
-- When the checks of a list of needs pass.
use e2ee_app.Audit.Needs.{check_joined, check_each}
use e2ee_app.Audit.Repo.{File, absent, unreadable, content, missing_literals}
use e2ee_app.Base.{◌≡◌, refl, ap, ◌∙◌, ◌↔◌, List, []}
use e2ee_app.Needs.Laws.{AreMet, unmet-nil, unmet-AreMet, joined-nil, each-nil}
use e2ee_app.Needs.{Need, unmet, joined, each}
use e2ee_app.Py.Text.{Text}

-- The file is there and can be read, and its text, stripped, meets every need.
abbrev pub Meets : (Text → Text) → List Need → File → Type 0
Meets strip needs file = (text : Text) × (file ≡ content text) × AreMet needs (strip text)

check_each-nil :
    (strip : Text → Text) (path : Text) (needs : List Need) (file : File)
    → check_each strip path needs file ≡ []
    → Meets strip needs file
unfolding check_each
check_each-nil strip path needs absent h = cc
check_each-nil strip path needs unreadable h = cc
check_each-nil strip path needs (content text) h = (
  text,
  refl,
  unmet-nil needs (strip text) (each-nil (missing_literals path) (unmet needs (strip text)) h),
)

-- A check with a message for each need reports nothing exactly where the file is there, can be
-- read, and its text, stripped of comments where the check strips it, meets every need.
pub check_each_iff :
    (strip : Text → Text) (path : Text) (needs : List Need) (file : File)
    → (check_each strip path needs file ≡ []) ↔ Meets strip needs file
unfolding check_each
check_each_iff strip path needs file = (
  check_each-nil strip path needs file,
  λ (text, e, all).
      ap (check_each strip path needs) e
      ∙ ap (each (missing_literals path)) (unmet-AreMet needs (strip text) all),
)

check_joined-nil :
    (strip : Text → Text) (path : Text) (needs : List Need) (file : File)
    → check_joined strip path needs file ≡ []
    → Meets strip needs file
unfolding check_joined
check_joined-nil strip path needs absent h = cc
check_joined-nil strip path needs unreadable h = cc
check_joined-nil strip path needs (content text) h = (
  text,
  refl,
  unmet-nil needs (strip text) (joined-nil (missing_literals path) (unmet needs (strip text)) h),
)

-- A check with one message in all reports nothing exactly where the file is there, can be read,
-- and its text meets every need.
pub check_joined_iff :
    (strip : Text → Text) (path : Text) (needs : List Need) (file : File)
    → (check_joined strip path needs file ≡ []) ↔ Meets strip needs file
unfolding check_joined
check_joined_iff strip path needs file = (
  check_joined-nil strip path needs file,
  λ (text, e, all).
      ap (check_joined strip path needs) e
      ∙ ap (joined (missing_literals path)) (unmet-AreMet needs (strip text) all),
)
