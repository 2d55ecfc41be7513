-- ===== src/Audit/Pubspec/Baseline.antt =====
-- When S20 passes: the shape of mobile/pubspec.yaml.
use e2ee_app.Audit.Pubspec.{
  is_full, is_flutter, missing_if, flutter_dep_sdk, flutter_test_sdk, environment_sdk, missing_keys,
  report_s20, check_s20_doc,
}
use e2ee_app.Base.{◌≡◌, refl, ap, ◌∙◌, ◌↔◌, Bool, true, false, not, List, [], ◌∷◌, ◌++◌}
use e2ee_app.Py.Exn.{
  yaml_error, value_error, type_error, attribute_error, key_error, os_error, Result, ok, raise,
}
use e2ee_app.Py.Text.{Text, codes, text_eq_refl, text_eq→eq}
use e2ee_app.Py.Value.{Value, null, bool, int, neg_int, str, list, dict, other, Fields, get, key}

-- The name and the SDK constraint are texts that are not empty, and the two packages come from
-- the Flutter SDK.
abbrev pub IsBaseline : Fields → Type 0
IsBaseline doc =
    (is_full (get (key "name") doc) ≡ true)
    × (is_full (environment_sdk doc) ≡ true)
    × (flutter_dep_sdk doc ≡ key "flutter")
    × (flutter_test_sdk doc ≡ key "flutter")

missing_if-nil :
    (b : Bool) (t : Text) (rest : List Text)
    → missing_if (not b) t ++ rest ≡ []
    → (b ≡ true) × (rest ≡ [])
missing_if-nil true t rest h = (refl, h)
missing_if-nil false t rest h = cc

is_flutter-eq : (v : Value) → is_flutter v ≡ true → v ≡ key "flutter"
is_flutter-eq (str s) h = ap str (text_eq→eq s (codes "flutter") h)
is_flutter-eq null h = cc
is_flutter-eq (bool b) h = cc
is_flutter-eq (int n) h = cc
is_flutter-eq (neg_int n) h = cc
is_flutter-eq (list vs) h = cc
is_flutter-eq (dict d) h = cc
is_flutter-eq (other t r b) h = cc

is_flutter-key : (v : Value) → v ≡ key "flutter" → is_flutter v ≡ true
is_flutter-key v e = ap is_flutter e ∙ text_eq_refl (codes "flutter")

missing_last : (b : Bool) (t : Text) → missing_if (not b) t ≡ [] → b ≡ true
missing_last true t h = refl
missing_last false t h = cc

report_s20-nil : (ms : List Text) → report_s20 ms ≡ [] → ms ≡ []
report_s20-nil [] h = refl
report_s20-nil (m ∷ ms) h = cc

missing_keys-IsBaseline : (doc : Fields) → missing_keys doc ≡ [] → IsBaseline doc
unfolding missing_keys
missing_keys-IsBaseline doc h =
    let (name, h1) = missing_if-nil (is_full (get (key "name") doc)) _ _ h in
    let (sdk, h2) = missing_if-nil (is_full (environment_sdk doc)) _ _ h1 in
    let (dep, h3) = missing_if-nil (is_flutter (flutter_dep_sdk doc)) _ _ h2 in
    (
      name,
      sdk,
      is_flutter-eq (flutter_dep_sdk doc) dep,
      is_flutter-eq (flutter_test_sdk doc) (missing_last (is_flutter (flutter_test_sdk doc)) _ h3),
    )

IsBaseline-missing_keys : (doc : Fields) → IsBaseline doc → missing_keys doc ≡ []
unfolding missing_keys
IsBaseline-missing_keys doc (name, sdk, dep, test) = rw (
  name,
  sdk,
  is_flutter-key (flutter_dep_sdk doc) dep,
  is_flutter-key (flutter_test_sdk doc) test,
)

-- On what `yaml.safe_load` returns, S20 passes exactly where it is a mapping of the baseline shape.
pub check_s20_doc_iff :
    (r : Result Value)
    → (check_s20_doc r ≡ ok []) ↔ ((doc : Fields) × (r ≡ ok (dict doc)) × IsBaseline doc)
unfolding check_s20_doc
check_s20_doc_iff r = (
  passes r,
  λ (doc, e, shape).
      ap check_s20_doc e ∙ ap (λ ms. ok (report_s20 ms)) (IsBaseline-missing_keys doc shape),
)
  where
    passes :
        (r : Result Value)
        → check_s20_doc r ≡ ok []
        → (doc : Fields) × (r ≡ ok (dict doc)) × IsBaseline doc
    passes (ok (dict doc)) h =
        (doc, refl, missing_keys-IsBaseline doc (report_s20-nil (missing_keys doc) (cc)))
    passes (ok null) h = cc
    passes (ok (bool b)) h = cc
    passes (ok (int n)) h = cc
    passes (ok (neg_int n)) h = cc
    passes (ok (str s)) h = cc
    passes (ok (list vs)) h = cc
    passes (ok (other t s b)) h = cc
    passes (raise (value_error m)) h = cc
    passes (raise (yaml_error m)) h = cc
    passes (raise type_error) h = cc
    passes (raise attribute_error) h = cc
    passes (raise key_error) h = cc
    passes (raise os_error) h = cc
