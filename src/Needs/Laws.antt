-- ===== src/Needs/Laws.antt =====
-- When no need is left unmet.
use e2ee_app.Base.{
  ◌≡◌, refl, ◌↔◌, inl, inr, Bool, true, false, ◌&&◌, List, [], ◌∷◌, All, Bool-cases,
}
use e2ee_app.Needs.{Need, unmet, joined, each}
use e2ee_app.Py.Text.{Text}

-- Every need is met.
unfoldable pub all_met : List Need → Text → Bool
all_met [] text = true
all_met (n ∷ ns) text = n.met text && all_met ns text

abbrev pub AreMet : List Need → Text → Type 0
AreMet needs text = All (λ (n : Need). n.met text ≡ true) needs

pub unmet-nil : (needs : List Need) (text : Text) → unmet needs text ≡ [] → AreMet needs text
unfolding unmet
unmet-nil [] text h = tt
unmet-nil (n ∷ ns) text h = elim (Bool-cases (n.met text)) [
  | inl e ↦ (e, unmet-nil ns text (rw e at h))
  | inr e ↦ absurd (cons_ne (rw e at h))
]
  where
    cons_ne : {m : Text} {ms : List Text} → (m ∷ ms) ≡ [] → ⊥
    cons_ne p = cc

pub unmet-AreMet : (needs : List Need) (text : Text) → AreMet needs text → unmet needs text ≡ []
unfolding unmet
unmet-AreMet [] text h = refl
unmet-AreMet (n ∷ ns) text (e, h) = rw e (unmet-AreMet ns text h)

pub all_met_iff :
    (needs : List Need) (text : Text) → (all_met needs text ≡ true) ↔ AreMet needs text
unfolding all_met
all_met_iff [] text = (λ _. tt, λ _. refl)
all_met_iff (n ∷ ns) text = (
  λ h. elim (Bool-cases (n.met text)) [
    | inl e ↦ (e, (all_met_iff ns text).0 (rw e at h))
    | inr e ↦ absurd (false_ne (rw e at h))
  ],
  λ (e, h). rw e ((all_met_iff ns text).1 h),
)
  where
    false_ne : false ≡ true → ⊥
    false_ne p = cc

pub joined-nil {ℓ} : {F : Type ℓ} (f : List Text → F) (ms : List Text) → joined f ms ≡ [] → ms ≡ []
joined-nil f [] h = refl
joined-nil f (m ∷ ms) h = cc

pub each-nil {ℓ} : {F : Type ℓ} (f : List Text → F) (ms : List Text) → each f ms ≡ [] → ms ≡ []
each-nil f [] h = refl
each-nil f (m ∷ ms) h = cc
