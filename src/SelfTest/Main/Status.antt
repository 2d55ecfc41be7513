-- ===== src/SelfTest/Main/Status.antt =====
-- What the exit status of the self-test means.
use e2ee_app.Base.{
  ℕ, ◌≡◌, refl, ◌↔◌, inl, inr, Bool, true, false, List, [], ◌∷◌, All, Bool-cases, and-eq-true,
  arith,
}
use e2ee_app.Py.Sort.Perm.{sorted_iff}
use e2ee_app.Py.Sort.{sorted}
use e2ee_app.Py.Text.{Text, text_eq→eq, text_eq_refl}
use e2ee_app.SelfTest.Main.{Case, texts_eq, is_ok, run_cases, conclude, main}
use e2ee_app.SelfTest.Laws.{cons_ne}
use mathlib.Core.List.{Perm}

texts_eq→eq : (ts us : List Text) → texts_eq ts us ≡ true → ts ≡ us
unfolding texts_eq
texts_eq→eq [] [] h = refl
texts_eq→eq [] (u ∷ us) h = cc
texts_eq→eq (t ∷ ts) [] h = cc
texts_eq→eq (t ∷ ts) (u ∷ us) h =
    let (e, es) = and-eq-true h in rw (text_eq→eq t u e, texts_eq→eq ts us es) refl

texts_eq_refl : (ts : List Text) → texts_eq ts ts ≡ true
unfolding texts_eq
texts_eq_refl [] = refl
texts_eq_refl (t ∷ ts) = rw (text_eq_refl t, texts_eq_refl ts) refl

-- A case that gives what it expects, in any order.
abbrev pub IsOk : Case → Type 0
IsOk c = Perm c.actual c.expected

is_ok_iff : (c : Case) → (is_ok c ≡ true) ↔ IsOk c
is_ok_iff c = (
  λ h. (sorted_iff c.actual c.expected).0 (texts_eq→eq _ _ h),
  λ p. rw ((sorted_iff c.actual c.expected).1 p) (texts_eq_refl (sorted c.expected)),
)

-- No case has failed exactly where all are ok.
run_cases-nil : (cs : List Case) → ((run_cases cs).1 ≡ []) ↔ All IsOk cs
unfolding run_cases
run_cases-nil [] = (λ _. tt, λ _. refl)
run_cases-nil (c ∷ cs) = elim (Bool-cases (is_ok c)) [
  | inl e ↦
      rw e (λ h. ((is_ok_iff c).0 e, (run_cases-nil cs).0 h), λ (p, all). (run_cases-nil cs).1 all)
  | inr e ↦ rw e (λ h. absurd (cons_ne h), λ (p, all). absurd (true_ne ((is_ok_iff c).1 p) e))
]
  where
    true_ne : {b : Bool} → b ≡ true → b ≡ false → ⊥
    true_ne p q = cc

conclude-status : (n : ℕ) (failed : List Text) → ((conclude n failed).1 ≡ 0) ↔ (failed ≡ [])
conclude-status n [] = (λ _. refl, λ _. refl)
conclude-status n (f ∷ fs) = (λ h. absurd (one_ne h), λ h. absurd (cons_ne h))
  where
    one_ne : ◌≡◌ {A = ℕ} 1 0 → ⊥
    one_ne h = omega arith

-- The self-test ends with status 0 exactly where every case gives the findings that it expects, in
-- any order.
pub main_status_iff : (cases : List Case) → ((main cases).1 ≡ 0) ↔ All IsOk cases
unfolding main
main_status_iff cases = (
  λ h. (run_cases-nil cases).0 ((conclude-status _ _).0 h),
  λ all. (conclude-status _ _).1 ((run_cases-nil cases).1 all),
)
