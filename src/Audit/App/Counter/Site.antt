-- ===== src/Audit/App/Counter/Site.antt =====
-- What S84 shows of the packet counter of OpenE2eeVpnService.kt.
use e2ee_app.Audit.App.Counter.{
  check_vpn_service_packets_observed_increment_invariant_v27, counter_faults, enclosing, fake_re,
  increment_re, judge_fake, judge_increments, judge_sets, judge_site, matches, session_functions,
  set_re, window_before,
}
use e2ee_app.Audit.App.{vpn_service_kt}
use e2ee_app.Audit.Needs.{examine}
use e2ee_app.SelfTest.Laws.{append-nil}
use e2ee_app.Audit.Repo.{missing_literals, File, absent, unreadable, content, Repo}
use e2ee_app.Audit.Strip.{strip_plain}
use e2ee_app.Base.{
  ◌-◌, take, drop, ℕ, ◌≡◌, ◌↔◌, ◌∙◌, refl, ap, All, Bool, true, false, List, [], ◌∷◌, if◌then◌else◌,
}
use e2ee_app.Needs.Laws.{each-nil}
use e2ee_app.Needs.{has, each}
use e2ee_app.Py.Re.{Found, occurs}
use e2ee_app.Py.Text.{Text, codes, one_of, text_eq, text_eq_iff}

-- The one increment that a code holds.
pub record Increment (code : Text) (ms : List (ℕ × Found)) : Type 0 where
  pub place : ℕ
  pub at : Found
  pub only : ms ≡ ((place, at) ∷ [])
  pub inside : enclosing code place ≡ codes "startReaderThread"
  pub behind : has "extractMetadata" (drop (place - 600) (take place code)) ≡ true

-- The call stands in one of the functions.
abbrev pub IsInside : List Text → Text → ℕ × Found → Type 0
IsInside allowed code m = one_of (enclosing code m.0) allowed ≡ true

-- One increment, in the read branch; every reset in one of the functions; no counting by hand.
pub record IsCounted (allowed : List Text) (code : Text) : Type 0 where
  pub increment : Increment code (matches increment_re code)
  pub resets : All (IsInside allowed code) (matches set_re code)
  pub no_fake : occurs fake_re code ≡ false

pub cons_ne_nil {ℓ k} : {A : Type ℓ} {P : Type k} {x : A} {xs : List A} → (x ∷ xs) ≡ [] → P
cons_ne_nil h = cc

-- An `if` that reports on its second branch.
pub reported_nil {ℓ} :
    {A : Type ℓ} (b : Bool) (x : A) (rest : List A)
    → (if b then rest else x ∷ rest) ≡ []
    → (b ≡ true) × (rest ≡ [])
reported_nil true x rest h = (refl, h)
reported_nil false x rest h = cons_ne_nil h

pub both_hold {ℓ} :
    {A : Type ℓ} (b c : Bool) (x y : A)
    → (if b then (if c then [] else x ∷ []) else y ∷ []) ≡ []
    → (b ≡ true) × (c ≡ true)
both_hold true true x y h = (refl, refl)
both_hold true false x y h = cons_ne_nil h
both_hold false c x y h = cons_ne_nil h

pub not_reported {ℓ} : {A : Type ℓ} (b : Bool) (x : A) → (if b then x ∷ [] else []) ≡ [] → b ≡ false
not_reported true x h = cons_ne_nil h
not_reported false x h = refl

fake_nil : (code : Text) → judge_fake code ≡ [] → occurs fake_re code ≡ false
fake_nil code h = not_reported (occurs fake_re code) _ h

judge_site-nil :
    (code : Text) (place : ℕ)
    → judge_site code place ≡ []
    → (enclosing code place ≡ codes "startReaderThread")
      × (has "extractMetadata" (window_before code place) ≡ true)
judge_site-nil code place h =
    let (a, b) =
      both_hold (text_eq (enclosing code place) (codes "startReaderThread"))
        (has "extractMetadata" (window_before code place)) _ _ h in
    ((text_eq_iff _ _).0 a, b)

judge_increments-nil :
    (code : Text) (ms : List (ℕ × Found)) → judge_increments code ms ≡ [] → Increment code ms
judge_increments-nil code [] h = cons_ne_nil h
judge_increments-nil code ((place, m) ∷ []) h =
    let (a, b) = judge_site-nil code place h in
    record { place = place; at = m; only = refl; inside = a; behind = b }
judge_increments-nil code (_ ∷ _ ∷ _) h = cons_ne_nil h

judge_increments-Increment :
    (code : Text) (ms : List (ℕ × Found)) → Increment code ms → judge_increments code ms ≡ []
judge_increments-Increment code ms i =
    rw
      (
        i.only,
        (text_eq_iff (enclosing code i.place) (codes "startReaderThread")).1 i.inside,
        i.behind,
      )
      refl

judge_sets-nil :
    (allowed : List Text) (code : Text) (ms : List (ℕ × Found))
    → judge_sets allowed code ms ≡ []
    → All (IsInside allowed code) ms
unfolding judge_sets
judge_sets-nil allowed code [] h = tt
judge_sets-nil allowed code ((place, m) ∷ ms) h =
    let (a, b) =
      reported_nil (one_of (enclosing code place) allowed) _ (judge_sets allowed code ms) h in
    (a, judge_sets-nil allowed code ms b)

judge_sets-All :
    (allowed : List Text) (code : Text) (ms : List (ℕ × Found))
    → All (IsInside allowed code) ms
    → judge_sets allowed code ms ≡ []
unfolding judge_sets
judge_sets-All allowed code [] all = refl
judge_sets-All allowed code ((place, m) ∷ ms) (a, all) = rw (a) (judge_sets-All allowed code ms all)

pub counter_faults-nil :
    (allowed : List Text) (code : Text) → counter_faults allowed code ≡ [] → IsCounted allowed code
unfolding counter_faults
counter_faults-nil allowed code h =
    let (a, r) = (append-nil (judge_increments code (matches increment_re code)) _).0 h in
    let (b, c) =
      (append-nil (judge_sets allowed code (matches set_re code)) (judge_fake code)).0 r in
    record {
      increment = judge_increments-nil code _ a;
      resets = judge_sets-nil allowed code _ b;
      no_fake = fake_nil code c;
    }

pub counter_faults-IsCounted :
    (allowed : List Text) (code : Text) → IsCounted allowed code → counter_faults allowed code ≡ []
unfolding counter_faults
counter_faults-IsCounted allowed code c =
    (append-nil (judge_increments code (matches increment_re code)) _).1 (
      judge_increments-Increment code _ c.increment,
      (append-nil (judge_sets allowed code (matches set_re code)) (judge_fake code)).1
          (judge_sets-All allowed code _ c.resets, rw (c.no_fake) refl),
    )

-- S84 passes exactly where OpenE2eeVpnService.kt is there and can be read, and its code, stripped of
-- comments, holds one increment of the counter, which is in `startReaderThread` with `extractMetadata`
-- in the 600 characters before it, has every call of `set` in `startCapture` or `stopCapture`, and
-- nowhere sets the counter to its value and 1.
pub check-IsCounted :
    (repo : Repo)
    → (check_vpn_service_packets_observed_increment_invariant_v27 repo ≡ []) ↔ (
        (text : Text) × (repo.file vpn_service_kt ≡ content text)
        × IsCounted session_functions (strip_plain text))
unfolding check_vpn_service_packets_observed_increment_invariant_v27
check-IsCounted repo = on_file (repo.file vpn_service_kt)
  where
    on_file :
        (f : File)
        → (examine vpn_service_kt f (λ text.
              each
                (missing_literals vpn_service_kt)
                (counter_faults session_functions (strip_plain text)))
            ≡ [])
          ↔ ((text : Text) × (f ≡ content text) × IsCounted session_functions (strip_plain text))
    on_file absent = (λ h. cons_ne_nil h, λ (_, e, _). cc)
    on_file unreadable = (λ h. cons_ne_nil h, λ (_, e, _). cc)
    on_file (content text) = (
      λ h. (
        text,
        refl,
        counter_faults-nil session_functions (strip_plain text)
            (each-nil (missing_literals vpn_service_kt) _ h),
      ),
      λ (t, e, c).
          ap
            (λ f. examine vpn_service_kt f (λ u.
              each (missing_literals vpn_service_kt)
                (counter_faults session_functions (strip_plain u))))
            e
          ∙ ap (each (missing_literals vpn_service_kt))
              (counter_faults-IsCounted session_functions (strip_plain t) c),
    )
