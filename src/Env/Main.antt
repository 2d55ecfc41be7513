-- ===== src/Env/Main.antt =====
-- `main` of infra/scripts/validate_env.py: the two tests and their verdict.
use e2ee_app.Base.{ℕ, ◌||◌, Option, none, some, List, [], ◌∷◌, ◌==◌, map, if◌then◌else◌}
use e2ee_app.Env.{load_env_file, walk}
use e2ee_app.Py.Dict.{Dict, merge, remove}
use e2ee_app.Py.Exn.{value_error, type_error, attribute_error, key_error, Result, ok, raise, ◌>>=◌}
use e2ee_app.Py.Re.{Re, cls, seq, star, group, char, literal, is_word, group_text, find_iter}
use e2ee_app.Py.Text.{Text, codes, in_range, text_eq, text_lt}
use e2ee_app.Py.Value.{Value, dict, Fields, find, key}

-- `\$\{([A-Z_][A-Za-z0-9_]*):\?`
abbrev pub required_re : Re
required_re = seq (char b'$') (
    seq (char b'{') (
      seq (group 1 (seq (cls (λ c. in_range b'A' b'Z' c || c == b'_')) (star (cls is_word))))
        (literal (codes ":?"))))

-- One more element of a sorted set.
unfoldable pub insert_sorted : Text → List Text → List Text
unfolding text_lt text_eq
insert_sorted s [] = s ∷ []
insert_sorted s (t ∷ ts) =
    if text_eq s t then t ∷ ts else if text_lt s t then s ∷ t ∷ ts else t ∷ insert_sorted s ts

unfoldable pub sorted_set : List Text → List Text
unfolding insert_sorted
sorted_set [] = []
sorted_set (s ∷ ss) = insert_sorted s (sorted_set ss)

-- `sorted(set(required_pattern.findall(raw)))`
unfoldable pub required_vars : Text → List Text
unfolding sorted_set find_iter
required_vars raw = sorted_set (map (group_text 1) (find_iter required_re raw).0)

-- The body of the loop: the variable joins the failures if the expansion succeeds without it; an
-- exception other than `ValueError` goes on.
unfoldable pub record_failure {ℓ} :
    {A : Type ℓ} → Text → Result A → Result (List Text) → Result (List Text)
record_failure var (ok _) rest = do vs ← rest; ok (var ∷ vs)
record_failure var (raise (value_error _)) rest = rest
record_failure var (raise e) rest = raise e

-- The variables without which the expansion succeeds: `failures`.
unfoldable pub not_caught : Value → Dict → List Text → Result (List Text)
not_caught doc env [] = ok []
not_caught doc env (var ∷ vars) =
    record_failure var (walk doc (remove var env)) (not_caught doc env vars)

-- `list(doc['services'].keys())`, for its exceptions.
unfoldable pub service_names : Value → Result Fields
service_names (dict fs) = elim (find (key "services") fs) [
  | none ↦ raise key_error
  | some (dict services) ↦ ok services
  | some _ ↦ raise attribute_error
]
service_names v = raise type_error

-- How a run ends.
pub data Verdict : Type 0 where
  no_compose : Verdict
  missing : Text → Verdict
  nothing_required : Verdict
  not_detected : List Text → Verdict
  passed : List Text → Verdict

abbrev pub status : Verdict → ℕ
status no_compose = 1
status (missing _) = 2
status nothing_required = 0
status (not_detected _) = 3
status (passed _) = 0

abbrev pub judge : List Text → List Text → Verdict
judge vars [] = passed vars
judge vars (f ∷ fs) = not_detected (f ∷ fs)

-- The second test, over the required variables.
unfoldable pub check_required : Value → Dict → List Text → Result Verdict
unfolding not_caught
check_required doc env [] = ok nothing_required
check_required doc env (var ∷ vars) = do
  failures ← not_caught doc env (var ∷ vars)
  ok (judge (var ∷ vars) failures)

-- From the result of the first test on: only a `ValueError` is reported as a missing variable.
unfoldable pub conclude : Value → Dict → List Text → Result Value → Result Verdict
unfolding check_required
conclude doc env vars (raise (value_error message)) = ok (missing message)
conclude doc env vars (raise e) = raise e
conclude doc env vars (ok expanded) = do _ ← service_names expanded; check_required doc env vars

-- `main`, from the texts of docker-compose.yml and .env.example, the process environment and the
-- parser `yaml.safe_load`.
unfoldable pub main : (Text → Result Value) → Option Text → Option Text → Dict → Result Verdict
unfolding conclude
main safe_load none env_example environ = ok no_compose
main safe_load (some raw) env_example environ = do
  doc ← safe_load raw
  let env_full = merge (load_env_file env_example) environ
  conclude doc env_full (required_vars raw) (walk doc env_full)
