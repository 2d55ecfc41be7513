-- ===== src/Compose/Crash.antt =====
-- How `main` ends: the summary comes before the report, and a wrong section stops the summary.
use e2ee_app.Base.{
  ◌≡◌, refl, ap, ◌⊎◌, inl, inr, Bool-cases, ◌∙◌, ℕ, false, some, List, [], ◌∷◌, arith,
}
use e2ee_app.Compose.Shape.{IsComposeValue, validate_iff}
use e2ee_app.Compose.{Issue, validate, section, summary_line, summary, report, after_parse, main}
use e2ee_app.Py.Exn.{
  Exn, value_error, yaml_error, type_error, attribute_error, key_error, os_error, Result, ok, raise,
  ◌>>=◌, >>=-eq-ok,
}
use e2ee_app.Py.Text.{Text, codes, one_of}
use e2ee_app.Py.Value.{Value, null, bool, int, neg_int, str, list, dict, other, key, is_dict}

-- The call raises an exception.
abbrev pub Raises {ℓ} : {A : Type ℓ} → Result A → Type ℓ
Raises r = (e : Exn) × (r ≡ raise e)

pub Raises-head {ℓ κ} :
    {A : Type ℓ} {B : Type κ} (m : Result A) (f : A → Result B) → Raises m → Raises (m >>= f)
Raises-head (ok a) f (e, h) = cc
Raises-head (raise e) f h = (e, refl)

pub Raises-tail {ℓ κ} :
    {A : Type ℓ} {B : Type κ} (m : Result A) (f : A → Result B)
    → ((a : A) → Raises (f a))
    → Raises (m >>= f)
Raises-tail (ok a) f h = h a
Raises-tail (raise e) f h = (e, refl)

summary_line-Raises : (v : Value) → is_dict v ≡ false → Raises (summary_line v)
unfolding summary_line
summary_line-Raises (dict _) h = cc
summary_line-Raises (list _) h = (attribute_error, refl)
summary_line-Raises (str _) h = (attribute_error, refl)
summary_line-Raises null h = (type_error, refl)
summary_line-Raises (bool _) h = (type_error, refl)
summary_line-Raises (int _) h = (type_error, refl)
summary_line-Raises (neg_int _) h = (type_error, refl)
summary_line-Raises (other kind _ _) h =
    elim (Bool-cases (one_of kind (codes "set" ∷ codes "bytes" ∷ []))) [
      | inl e ↦ (attribute_error, rw e refl)
      | inr e ↦ (type_error, rw e refl)
    ]

-- One of the three sections is there and is no mapping.
abbrev pub HasBadSection : Value → Type 0
HasBadSection doc =
    (is_dict (section (key "services") doc) ≡ false)
    ⊎ (is_dict (section (key "networks") doc) ≡ false)
    ⊎ (is_dict (section (key "volumes") doc) ≡ false)

summary-Raises : (doc : Value) → HasBadSection doc → Raises (summary doc)
unfolding summary
summary-Raises doc (inl s) = Raises-head _ _ (summary_line-Raises _ s)
summary-Raises doc (inr (inl n)) =
    Raises-tail _ _ (λ services. Raises-head _ _ (summary_line-Raises _ n))
summary-Raises doc (inr (inr v)) =
    Raises-tail (summary_line (section (key "services") doc)) _ (λ services.
      Raises-tail (summary_line (section (key "networks") doc)) _
        (λ _. Raises-head _ _ (summary_line-Raises _ v)))

-- Where the services, the networks or the volumes are there and are no mapping (an empty section
-- is `None`), `main` stops with an exception, and never reports the issue with status 3.
pub main_bad_section :
    (safe_load : Text → Result Value) (raw : Text) (doc : Value)
    → safe_load raw ≡ ok doc
    → HasBadSection doc
    → Raises (main safe_load (some raw))
unfolding main
main_bad_section safe_load raw doc h bad =
    let crash =
      Raises-head (summary doc) (λ _. ok (report (validate doc))) (summary-Raises doc bad) in
    (crash.0, ap after_parse h ∙ crash.1)

report-eq-zero : (issues : List Issue) → report issues ≡ (0, []) → issues ≡ []
report-eq-zero [] h = refl
report-eq-zero (i ∷ is') h = absurd (omega (arith, ap (λ p. p.0) h))

abbrev status_of : Result (ℕ × List Issue) → ℕ
status_of (ok p) = p.0
status_of (raise e) = 9

after_parse-eq-zero :
    (r : Result Value)
    → after_parse r ≡ ok (0, [])
    → (doc : Value) × (r ≡ ok doc) × IsComposeValue doc
after_parse-eq-zero (ok doc) h =
    let (_, _, done) = >>=-eq-ok (summary doc) (λ _. ok (report (validate doc))) h in
    (doc, refl, (validate_iff doc).0 (report-eq-zero (validate doc) (cc)))
after_parse-eq-zero (raise (value_error m)) h = cc
after_parse-eq-zero (raise (yaml_error m)) h = absurd (omega (arith, ap status_of h))
after_parse-eq-zero (raise type_error) h = cc
after_parse-eq-zero (raise attribute_error) h = cc
after_parse-eq-zero (raise key_error) h = cc
after_parse-eq-zero (raise os_error) h = cc

-- Status 0 means that the text parses to a document of the right shape.
pub main-eq-zero :
    (safe_load : Text → Result Value) (raw : Text)
    → main safe_load (some raw) ≡ ok (0, [])
    → (doc : Value) × (safe_load raw ≡ ok doc) × IsComposeValue doc
unfolding main
main-eq-zero safe_load raw h = after_parse-eq-zero (safe_load raw) h
