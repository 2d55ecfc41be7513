-- ===== src/Env/Walk.antt =====
-- `walk` over a document: the strings that it expands, in their order, and what `main` concludes.
use e2ee_app.Base.{
  ◌≡◌, refl, ◌∙◌, ap, sym, subst, Option, none, some, List, [], ◌∷◌, ◌++◌, All, arith,
}
use e2ee_app.Env.{expand, walk, walk_items, walk_fields, load_env_file}
use e2ee_app.Env.Main.{
  conclude, record_failure, not_caught, judge, passed, check_required, required_vars, service_names,
  main,
}
use e2ee_app.Py.Dict.{Dict, merge, remove}
use e2ee_app.Py.Exn.{
  Exn, value_error, yaml_error, type_error, attribute_error, key_error, os_error, Result, ok, raise,
  ◌>>=◌, >>=-eq-ok,
}
use e2ee_app.Py.Text.{Text}
use e2ee_app.Py.Value.{
  Value, null, bool, int, neg_int, str, list, dict, other, Items, nil, cons, Fields, end, field,
}

-- The strings of a document, in the order of the text.
mutual
  pub strings : Value → List Text
  strings (str s) = s ∷ []
  strings (list vs) = strings_items vs
  strings (dict fs) = strings_fields fs
  strings v = []

  strings_items : Items → List Text
  strings_items nil = []
  strings_items (cons v vs) = strings v ++ strings_items vs

  strings_fields : Fields → List Text
  strings_fields end = []
  strings_fields (field k v fs) = strings v ++ strings_fields fs

-- The first exception, if any.
abbrev pub error_of {ℓ} : {A : Type ℓ} → Result A → Option Exn
error_of (ok _) = none
error_of (raise e) = some e

abbrev or_else : Option Exn → Option Exn → Option Exn
or_else none o = o
or_else (some e) o = some e

pub first_error : Dict → List Text → Option Exn
first_error env [] = none
first_error env (s ∷ ss) = or_else (error_of (expand s env)) (first_error env ss)

first_error-append :
    (env : Dict) (ss ts : List Text)
    → first_error env (ss ++ ts) ≡ or_else (first_error env ss) (first_error env ts)
unfolding first_error
first_error-append env [] ts = refl
first_error-append env (s ∷ ss) ts = ground (arith, first_error-append env ss ts)

error_of-map {ℓ κ} :
    {A : Type ℓ} {B : Type κ} (m : Result A) (f : A → B)
    → error_of (do a ← m; ok (f a)) ≡ error_of m
error_of-map (ok a) f = refl
error_of-map (raise e) f = refl

error_of-map_two {ℓ κ} :
    {A : Type ℓ} {B C : Type κ} (m : Result A) (n : Result B) (f : A → B → C)
    → error_of (do a ← m; b ← n; ok (f a b)) ≡ or_else (error_of m) (error_of n)
error_of-map_two (ok a) (ok b) f = refl
error_of-map_two (ok a) (raise e) f = refl
error_of-map_two (raise e) n f = refl

or_else-none : (o : Option Exn) → o ≡ or_else o none
or_else-none none = refl
or_else-none (some e) = refl

cong_or : {a b c d : Option Exn} → a ≡ b → c ≡ d → or_else a c ≡ or_else b d
cong_or p q = cc

mutual
  unfolding walk strings first_error

  walk_errors : (env : Dict) (v : Value) → error_of (walk v env) ≡ first_error env (strings v)
  walk_errors env (str s) = error_of-map (expand s env) str ∙ or_else-none _
  walk_errors env (list vs) = error_of-map (walk_items vs env) list ∙ walk_items_errors env vs
  walk_errors env (dict fs) = error_of-map (walk_fields fs env) dict ∙ walk_fields_errors env fs
  walk_errors env null = refl
  walk_errors env (bool _) = refl
  walk_errors env (int _) = refl
  walk_errors env (neg_int _) = refl
  walk_errors env (other _ _ _) = refl

  walk_items_errors :
      (env : Dict) (vs : Items) → error_of (walk_items vs env) ≡ first_error env (strings_items vs)
  walk_items_errors env nil = refl
  walk_items_errors env (cons v vs) =
      error_of-map_two (walk v env) (walk_items vs env) cons
      ∙ cong_or (walk_errors env v) (walk_items_errors env vs)
      ∙ sym (first_error-append env (strings v) (strings_items vs))

  walk_fields_errors :
      (env : Dict) (fs : Fields)
      → error_of (walk_fields fs env) ≡ first_error env (strings_fields fs)
  walk_fields_errors env end = refl
  walk_fields_errors env (field k v fs) =
      error_of-map_two (walk v env) (walk_fields fs env) (field k)
      ∙ cong_or (walk_errors env v) (walk_fields_errors env fs)
      ∙ sym (first_error-append env (strings v) (strings_fields fs))

-- `walk` raises exactly when one of the strings of the document does, and it raises the
-- exception of the first of them in the order of the document, at any depth.
pub walk-first_error :
    (env : Dict) (v : Value) → error_of (walk v env) ≡ first_error env (strings v)
walk-first_error env v = walk_errors env v

-- The document cannot be expanded: a required variable is missing.
abbrev pub IsCaught : Value → Dict → Text → Type 0
IsCaught doc env var = (message : Text) × (walk doc (remove var env) ≡ raise (value_error message))

record_failure-eq-nil :
    (var : Text) (r : Result Value) (rest : Result (List Text))
    → record_failure var r rest ≡ ok []
    → ((message : Text) × (r ≡ raise (value_error message))) × (rest ≡ ok [])
unfolding record_failure
record_failure-eq-nil var (ok _) (ok vs) h = cc
record_failure-eq-nil var (ok _) (raise e) h = cc
record_failure-eq-nil var (raise (value_error m)) rest h = ((m, refl), h)
record_failure-eq-nil var (raise (yaml_error _)) rest h = cc
record_failure-eq-nil var (raise type_error) rest h = cc
record_failure-eq-nil var (raise attribute_error) rest h = cc
record_failure-eq-nil var (raise key_error) rest h = cc
record_failure-eq-nil var (raise os_error) rest h = cc

not_caught-eq-nil :
    (doc : Value) (env : Dict) (vars : List Text)
    → not_caught doc env vars ≡ ok []
    → All (IsCaught doc env) vars
unfolding not_caught
not_caught-eq-nil doc env [] h = tt
not_caught-eq-nil doc env (var ∷ vars) h =
    let (caught, rest) =
      record_failure-eq-nil var (walk doc (remove var env)) (not_caught doc env vars) h in
    (caught, not_caught-eq-nil doc env vars rest)

judge-eq-passed :
    (vars failures vars' : List Text) → judge vars failures ≡ passed vars' → failures ≡ []
judge-eq-passed vars [] vars' h = refl
judge-eq-passed vars (f ∷ fs) vars' h = cc

judge-vars : (vars vars' : List Text) → judge vars [] ≡ passed vars' → vars ≡ vars'
judge-vars vars vars' h = cc

check_required-eq-passed :
    (doc : Value) (env : Dict) (vars vars' : List Text)
    → check_required doc env vars ≡ ok (passed vars')
    → (vars ≡ vars') × All (IsCaught doc env) vars
unfolding check_required
check_required-eq-passed doc env [] vars' h = cc
check_required-eq-passed doc env (var ∷ vars) vars' h =
    let (failures, run, verdict) =
      >>=-eq-ok (not_caught doc env (var ∷ vars)) (λ fs. ok (judge (var ∷ vars) fs)) h in
    let none_left : failures ≡ [] = judge-eq-passed (var ∷ vars) failures vars' (cc) in
    (
      judge-vars (var ∷ vars) vars' (cc),
      not_caught-eq-nil doc env (var ∷ vars) (run ∙ ap ok none_left),
    )

conclude-eq-passed :
    (doc : Value) (env : Dict) (vars vars' : List Text) (r : Result Value)
    → conclude doc env vars r ≡ ok (passed vars')
    → (error_of r ≡ none) × (vars ≡ vars') × All (IsCaught doc env) vars
unfolding conclude
conclude-eq-passed doc env vars vars' (ok expanded) h =
    let (_, _, run) = >>=-eq-ok (service_names expanded) (λ _. check_required doc env vars) h in
    let (same, caught) = check_required-eq-passed doc env vars vars' run in (refl, same, caught)
conclude-eq-passed doc env vars vars' (raise (value_error m)) h = cc
conclude-eq-passed doc env vars vars' (raise (yaml_error _)) h = cc
conclude-eq-passed doc env vars vars' (raise type_error) h = cc
conclude-eq-passed doc env vars vars' (raise attribute_error) h = cc
conclude-eq-passed doc env vars vars' (raise key_error) h = cc
conclude-eq-passed doc env vars vars' (raise os_error) h = cc

-- What a run that passes has shown: the document parses, it expands under the full environment,
-- there is a required variable in the text, and without any one of those variables the expansion
-- raises `ValueError`.
pub main-eq-passed :
    (safe_load : Text → Result Value) (raw : Text) (env_example : Option Text) (environ : Dict)
    (vars : List Text)
    → main safe_load (some raw) env_example environ ≡ ok (passed vars)
    → (doc : Value) × (safe_load raw ≡ ok doc)
      × (first_error (merge (load_env_file env_example) environ) (strings doc) ≡ none)
      × (required_vars raw ≡ vars)
      × All (IsCaught doc (merge (load_env_file env_example) environ)) vars
unfolding main
main-eq-passed safe_load raw env_example environ vars h =
    let env : Dict = merge (load_env_file env_example) environ in
    let (doc, parsed, run) =
      >>=-eq-ok (safe_load raw) (λ doc. conclude doc env (required_vars raw) (walk doc env)) h in
    let (fine, same, caught) =
      conclude-eq-passed doc env (required_vars raw) vars (walk doc env) run in
    (
      doc,
      parsed,
      sym (walk_errors env doc) ∙ fine,
      same,
      subst (All (IsCaught doc env)) same caught,
    )
