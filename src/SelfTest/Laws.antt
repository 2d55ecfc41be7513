-- ===== src/SelfTest/Laws.antt =====
-- When the copies of tools/audit-self-test.py report nothing.
use e2ee_app.Base.{◌≡◌, refl, ap, ◌↔◌, some, List, [], ◌∷◌, ◌++◌}
use e2ee_app.Needs.Laws.{AreMet, unmet-nil, unmet-AreMet, joined-nil, each-nil}
use e2ee_app.Needs.{Need, unmet, joined, each}
use e2ee_app.Py.Text.{Text}
use e2ee_app.SelfTest.{failed, run_each, run_joined}

pub run_each_iff :
    (strip : Text → Text) (needs : List Need) (text : Text)
    → (run_each strip needs (some text) ≡ []) ↔ AreMet needs (strip text)
unfolding run_each
run_each_iff strip needs text = (
  λ h. unmet-nil needs (strip text) (each-nil failed (unmet needs (strip text)) h),
  λ all. ap (each failed) (unmet-AreMet needs (strip text) all),
)

pub run_joined_iff :
    (strip : Text → Text) (needs : List Need) (text : Text)
    → (run_joined strip needs (some text) ≡ []) ↔ AreMet needs (strip text)
unfolding run_joined
run_joined_iff strip needs text = (
  λ h. unmet-nil needs (strip text) (joined-nil failed (unmet needs (strip text)) h),
  λ all. ap (joined failed) (unmet-AreMet needs (strip text) all),
)

pub cons_ne {ℓ} : {A : Type ℓ} {x : A} {xs : List A} → (x ∷ xs) ≡ [] → ⊥
cons_ne p = cc

pub append-nil {ℓ} : {A : Type ℓ} (xs ys : List A) → ((xs ++ ys) ≡ []) ↔ ((xs ≡ []) × (ys ≡ []))
append-nil [] ys = (λ h. (refl, h), λ p. p.1)
append-nil (x ∷ xs) ys = (λ h. absurd (cons_ne h), λ p. absurd (cons_ne p.0))
