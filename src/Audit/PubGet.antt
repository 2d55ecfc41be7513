-- ===== src/Audit/PubGet.antt =====
-- `check_android_debug_workflow_v3` (S6): the step that runs `flutter pub get`.
pub mod Misses
use e2ee_app.Audit.Repo.{
  File, absent, unreadable, content, exists, read_text, Repo, Yaml, Finding, file_missing,
  parse_failed, s6_missing, s6_misconfigured, s6_directory,
}
use e2ee_app.Audit.Workflow.{iterate, items_of, text_field, report_if}
use e2ee_app.Base.{
  Bool, true, false, not, ◌&&◌, ◌||◌, Option, none, some, List, [], ◌∷◌, if◌then◌else◌,
}
use e2ee_app.Py.Exn.{attribute_error, Result, ok, raise, ◌>>=◌}
use e2ee_app.Py.Text.{Text, codes, contains, lower, text_eq}
use e2ee_app.Py.Value.{
  Value, null, str, list, dict, Items, nil, Fields, end, elements, get, get_default, key,
}

-- `s6_match`, of which the working directory is read, and whether `s6_name_found` has an entry.
pub record Seen : Type 0 where
  pub matched : Option Value
  pub name_found : Bool

abbrev pub has_name : Fields → Bool
has_name s = contains (codes "install flutter dependencies") (lower (text_field (key "name") s))

abbrev pub runs_pub_get : Fields → Bool
runs_pub_get s = contains (codes "flutter pub get") (lower (text_field (key "run") s))

abbrev pub directory : Fields → Value
directory s = get (key "working-directory") s

-- The body of the loop over the steps; a later match replaces an earlier one.
abbrev pub see_step : Fields → Seen → Seen
see_step s seen =
    if has_name s
    then record {
      matched = if runs_pub_get s then some (directory s) else seen.matched;
      name_found = true;
    }
    else seen

unfoldable pub see_steps : List Value → Seen → Seen
see_steps [] seen = seen
see_steps (dict s ∷ ss) seen = see_steps ss (see_step s seen)
see_steps (_ ∷ ss) seen = see_steps ss seen

-- The steps of a job, where the job is a mapping and they are a list.
abbrev list_of : Value → List Value
list_of (list vs) = elements vs
list_of _ = []

abbrev pub listed_steps : Value → List Value
listed_steps (dict j) = list_of (get_default (key "steps") (list nil) j)
listed_steps _ = []

unfoldable pub see_jobs : List (Value × Value) → Seen → Seen
unfolding see_steps
see_jobs [] seen = seen
see_jobs ((_, def) ∷ jobs) seen = see_jobs jobs (see_steps (listed_steps def) seen)

-- The directory of the first step of a job that runs `flutter pub get`.
unfoldable pub observed_in : List Value → Option Value → Option Value
observed_in [] wd = wd
observed_in (dict s ∷ ss) wd =
    let rest = observed_in ss wd in
    if runs_pub_get s
    then some (get_default (key "working-directory") (str (codes "absent")) s)
    else rest
observed_in (_ ∷ ss) wd = observed_in ss wd

-- The second walk. It does not test that the steps are a list.
abbrev pub unchecked_steps : Value → Result (List Value)
unchecked_steps (dict j) = iterate (get_default (key "steps") (list nil) j)
unchecked_steps _ = ok []

unfoldable pub observed : List (Value × Value) → Option Value → Result (Option Value)
unfolding observed_in
observed [] wd = ok wd
observed ((_, def) ∷ jobs) wd = do steps ← unchecked_steps def; observed jobs (observed_in steps wd)

abbrev pub is_mobile : Value → Bool
is_mobile (str s) = text_eq s (codes "./mobile")
is_mobile _ = false

abbrev pub misses : Bool → Option Value → Finding
misses name_found wd = if name_found then s6_misconfigured wd else s6_missing

-- What is said after the walk, by the match and whether a step has the name.
unfoldable pub judge_seen : List (Value × Value) → Bool → Option Value → Result (List Finding)
unfolding observed
judge_seen jobs name_found none = do wd ← observed jobs none; ok (misses name_found wd ∷ [])
judge_seen jobs name_found (some wd) = ok (report_if (not (is_mobile wd)) (s6_directory wd))

abbrev pub nothing_seen : Seen
nothing_seen = record { matched = none; name_found = false }

unfoldable pub check_jobs : Value → Result (List Finding)
unfolding see_jobs judge_seen
check_jobs jobs = do
  entries ← items_of jobs
  let seen = see_jobs entries nothing_seen
  judge_seen entries seen.name_found seen.matched

abbrev debug_name : Text
debug_name = codes "android-debug.yml"

unfoldable pub check_docs : List Value → Result (List Finding)
unfolding check_jobs
check_docs (null ∷ []) = ok (parse_failed debug_name ∷ [])
check_docs (dict d ∷ []) = check_jobs (get_default (key "jobs") (dict end) d)
check_docs (v ∷ []) = raise attribute_error
check_docs docs = ok (parse_failed debug_name ∷ [])

unfoldable pub check_android_debug_workflow_v3 : Yaml → Repo → Result (List Finding)
unfolding check_docs
check_android_debug_workflow_v3 yaml repo =
    let f = repo.file (codes ".github/workflows/android-debug.yml") in
    if exists f
    then (do text ← read_text f; docs ← yaml.safe_load_all text; check_docs docs)
    else ok (file_missing debug_name ∷ [])
