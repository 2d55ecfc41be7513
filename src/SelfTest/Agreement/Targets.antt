-- ===== src/SelfTest/Agreement/Targets.antt =====
-- The pairs that take one of several files (S35 and S37), and the pair of S77, whose needs differ.
use e2ee_app.Audit.App.Handlers.{check_active_pool_screen_ui_propagation_v21, listens, s77_needs}
use e2ee_app.Audit.App.{active_pool_screen_dart}
use e2ee_app.Needs.Laws.{AreMet}
use e2ee_app.Needs.{has, raw}
use e2ee_app.SelfTest.Screens.{run_s77_check, s77_mirror}
use e2ee_app.Audit.Literals.{
  check_service_api_key_from_environment, check_service_uses_auth_headers, service_files, holds,
  Hit, hit, no_hit, add_missing, find_hit, report_s35, report_s37,
}
use e2ee_app.Audit.Repo.{Repo, Finding, File, absent, unreadable, content}
use e2ee_app.Base.{
  ◌≡◌, refl, sym, ◌∙◌, ◌↔◌, inl, inr, Bool, true, false, ◌||◌, not, Option, List, [], ◌∷◌, All,
  String, Bool-cases, if◌then◌else◌,
}
use e2ee_app.Py.Text.{Text, codes}
use e2ee_app.SelfTest.Agreement.{Pair, IsAgreement, text_of, each_agree}
use e2ee_app.SelfTest.Laws.{cons_ne}
use e2ee_app.SelfTest.Lines.{some_text_has, run_s35_check, run_s37_check}
use e2ee_app.SelfTest.{Failure}

abbrev is_hit : Hit → Bool
is_hit (hit _) = true
is_hit (no_hit _) = false

abbrev texts_of : Repo → List Text → List (Option Text)
texts_of repo [] = []
texts_of repo (p ∷ ps) = text_of (repo.file p) ∷ texts_of repo ps

is_hit-add_missing : (b : Bool) (t : Text) (h : Hit) → is_hit (add_missing b t h) ≡ is_hit h
is_hit-add_missing b t (hit _) = refl
is_hit-add_missing true t (no_hit _) = refl
is_hit-add_missing false t (no_hit _) = refl

some_text_has-holds :
    (s : String) (f : File) (ts : List (Option Text))
    → some_text_has s (text_of f ∷ ts) ≡ holds (codes s) f || some_text_has s ts
unfolding some_text_has
some_text_has-holds s absent ts = refl
some_text_has-holds s unreadable ts = refl
some_text_has-holds s (content text) ts = refl

-- The loop of the audit hits exactly where the loop of the copy does.
is_hit-find_hit :
    (repo : Repo) (s : String) (paths : List Text)
    → is_hit (find_hit repo (codes s) paths) ≡ some_text_has s (texts_of repo paths)
unfolding find_hit some_text_has
is_hit-find_hit repo s [] = refl
is_hit-find_hit repo s (p ∷ ps) = elim (Bool-cases (holds (codes s) (repo.file p))) [
  | inl e ↦ rw (some_text_has-holds s (repo.file p) (texts_of repo ps), e) refl
  | inr e ↦
      rw (some_text_has-holds s (repo.file p) (texts_of repo ps), e)
        (is_hit-add_missing _ p _ ∙ is_hit-find_hit repo s ps)
]

true_ne : true ≡ false → ⊥
true_ne e = cc

-- A report that is empty exactly for a hit.
abbrev IsReport : (Hit → List Finding) → Type 0
IsReport report =
    ((p : Text) → report (hit p) ≡ []) × ((ms : List Text) → report (no_hit ms) ≡ [] → ⊥)

report_iff :
    (report : Hit → List Finding) (h : Hit) (b : Bool) (f : Failure)
    → IsReport report
    → is_hit h ≡ b
    → (report h ≡ []) ↔ ((if b then [] else f ∷ []) ≡ [])
report_iff report (hit p) true f r e = (λ _. refl, λ _. r.0 p)
report_iff report (hit p) false f r e = absurd (true_ne e)
report_iff report (no_hit ms) true f r e = absurd (true_ne (sym e))
report_iff report (no_hit ms) false f r e = (λ h. absurd (r.1 ms h), λ h. absurd (cons_ne h))

implied : (b c : Bool) → b ≡ true → (not b || c) ≡ true → c ≡ true
implied true c e h = h
implied false c e h = absurd (true_ne (sym e))

weakened : (b c : Bool) → c ≡ true → (not b || c) ≡ true
weakened true c e = e
weakened false c e = refl

-- The check asks for `setState(` only where the screen listens, the copy in any case.
s77_same : (text : Text) → AreMet s77_needs (raw text) ↔ AreMet s77_mirror (raw text)
s77_same text = (
  λ (a, (b, (c, (d, _)))). (a, (b, (implied (listens text) (has "setState(" text) b c, (d, tt)))),
  λ (a, (b, (c, (d, _)))). (a, (b, (weakened (listens text) (has "setState(" text) c, (d, tt)))),
)

abbrev pub target_pairs : List Pair
target_pairs =
    record {
      check = check_service_api_key_from_environment;
      copies = λ repo.
          run_s35_check (text_of (repo.file (codes "mobile/lib/services/telemetry_service.dart")))
            (text_of (repo.file (codes "mobile/lib/services/p2p_matcher.dart")));
    }
    ∷ record {
      check = check_service_uses_auth_headers;
      copies = λ repo.
          run_s37_check (text_of (repo.file (codes "mobile/lib/services/telemetry_service.dart")))
            (text_of (repo.file (codes "mobile/lib/services/p2p_matcher.dart")));
    }
    ∷ record {
      check = check_active_pool_screen_ui_propagation_v21;
      copies = λ repo. run_s77_check (text_of (repo.file active_pool_screen_dart));
    }
    ∷ []

pub target_pairs-IsAgreement : All IsAgreement target_pairs
unfolding check_service_api_key_from_environment check_service_uses_auth_headers run_s35_check
    run_s37_check check_active_pool_screen_ui_propagation_v21 run_s77_check
target_pairs-IsAgreement = (
  λ repo.
      report_iff report_s35 _ _ _ ((λ p. refl), (λ ms h. cons_ne h))
        (is_hit-find_hit repo "String.fromEnvironment('API_KEY'" service_files),
  (
    λ repo.
        report_iff report_s37 _ _ _ ((λ p. refl), (λ ms h. cons_ne h))
          (is_hit-find_hit repo "authHeaders()" service_files),
    (λ repo. each_agree raw _ s77_needs s77_mirror _ s77_same, tt),
  ),
)
