-- ===== src/SelfTest/Agreement/Counter.antt =====
-- The copy of S84 and the check that it mirrors.
use e2ee_app.Audit.App.Counter.Site.{
  IsInside, IsCounted, Increment, both_hold, check-IsCounted, cons_ne_nil, not_reported,
  reported_nil,
}
use e2ee_app.Audit.App.Counter.{
  check_vpn_service_packets_observed_increment_invariant_v27, enclosing, function_re, name_before,
  session_functions,
}
use e2ee_app.Audit.App.{vpn_service_kt}
use e2ee_app.Audit.Repo.{File, absent, unreadable, content, Repo}
use e2ee_app.Audit.Strip.{strip_plain}
use e2ee_app.Base.{
  ℕ, ◌-◌, ◌≡◌, ◌∙◌, refl, sym, All, true, ◌||◌, Bool, List, [], ◌∷◌, drop, take, ltb, ap,
  if◌then◌else◌,
}
use e2ee_app.Needs.Laws.{each-nil}
use e2ee_app.Needs.{has}
use e2ee_app.Py.Re.{Found, group_text, matches, occurs}
use e2ee_app.Py.Text.{Text, codes, one_of, text_eq, text_eq_iff}
use e2ee_app.SelfTest.Agreement.{text_of}
use e2ee_app.SelfTest.Counter.{
  run_s84_check, s84_fake_re, s84_findings, s84_func_name, s84_increments, s84_last_name, s84_sets,
}
use e2ee_app.SelfTest.Laws.{append-nil, cons_ne}
use e2ee_app.SelfTest.{failed}

-- The two loops over the functions find the same one.
last_name-name_before :
    (place : ℕ) (ms : List (ℕ × Found)) (name : Text)
    → s84_last_name place ms name ≡ name_before place ms name
unfolding s84_last_name name_before
last_name-name_before place [] name = refl
last_name-name_before place ((start, m) ∷ ms) name =
    ap (λ rest. if ltb start place then rest else name)
      (last_name-name_before place ms (group_text 1 m))

func_name-enclosing : (code : Text) (place : ℕ) → s84_func_name code place ≡ enclosing code place
func_name-enclosing code place =
    last_name-name_before place (matches function_re code) (codes "<unknown>")

increments-Increment :
    (code : Text) (ms : List (ℕ × Found)) → s84_increments code ms ≡ [] → Increment code ms
increments-Increment code [] h = cons_ne_nil h
increments-Increment code ((place, m) ∷ []) h =
    let (a, b) =
      both_hold (text_eq (s84_func_name code place) (codes "startReaderThread"))
        (has "extractMetadata" (drop (place - 600) (take place code))) _ _ h in
    record {
      place = place;
      at = m;
      only = refl;
      inside = sym (func_name-enclosing code place) ∙ (text_eq_iff _ _).0 a;
      behind = b;
    }
increments-Increment code (_ ∷ _ ∷ _) h = cons_ne_nil h

or_true : (a b : Bool) → a ≡ true → (a || b) ≡ true
or_true a b h = rw h refl

-- A function that the copy allows is one that the check allows.
sets-IsInside :
    (code : Text) (ms : List (ℕ × Found))
    → s84_sets code ms ≡ []
    → All (IsInside session_functions code) ms
unfolding s84_sets one_of
sets-IsInside code [] h = tt
sets-IsInside code ((place, m) ∷ ms) h =
    let (a, b) =
      reported_nil (text_eq (s84_func_name code place) (codes "startCapture")) _ (s84_sets code ms)
        h in
    (
      or_true _ _
          (ap (λ n. text_eq n (codes "startCapture")) (sym (func_name-enclosing code place)) ∙ a),
      sets-IsInside code ms b,
    )

findings-IsCounted : (code : Text) → s84_findings code ≡ [] → IsCounted session_functions code
unfolding s84_findings
findings-IsCounted code h =
    let (a, r) = (append-nil (s84_increments code _) _).0 h in
    let (b, c) = (append-nil (s84_sets code _) _).0 r in
    record {
      increment = increments-Increment code _ a;
      resets = sets-IsInside code _ b;
      no_fake = not_reported (occurs s84_fake_re code) _ c;
    }

of_text :
    (f : File)
    → run_s84_check (text_of f) ≡ []
    → (text : Text) × (f ≡ content text) × IsCounted session_functions (strip_plain text)
unfolding run_s84_check
of_text absent h = absurd (cons_ne h)
of_text unreadable h = absurd (cons_ne h)
of_text (content text) h = (text, refl, findings-IsCounted (strip_plain text) (each-nil failed _ h))

-- Where the copy of S84 in tools/audit-self-test.py reports nothing on the text of OpenE2eeVpnService.kt,
-- the check of tools/workflow-yaml-audit.py reports nothing.
pub run_s84_check-stricter :
    (repo : Repo)
    → run_s84_check (text_of (repo.file vpn_service_kt)) ≡ []
    → check_vpn_service_packets_observed_increment_invariant_v27 repo ≡ []
run_s84_check-stricter repo h = (check-IsCounted repo).1 (of_text (repo.file vpn_service_kt) h)
