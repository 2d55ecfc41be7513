-- ===== src/Audit/PubGet/Misses.antt =====
-- What a pass of S6 shows, and where the check stops with an exception.
use e2ee_app.Audit.PubGet.{
  is_mobile, misses, Seen, has_name, runs_pub_get, directory, see_step, see_steps, listed_steps,
  see_jobs, observed_in, unchecked_steps, observed, judge_seen, nothing_seen, check_jobs,
}
use e2ee_app.Audit.Repo.{Finding}
use e2ee_app.Audit.Workflow.{iterate}
use e2ee_app.Base.{
  ◌≡◌, ap, ◌∙◌, ◌⊎◌, inl, inr, Bool, true, Option, none, some, List, [], ◌∷◌, ◌++◌, In, here, there,
  In-append_left, In-append_right, Bool-cases,
}
use e2ee_app.Compose.Crash.{Raises, Raises-head, Raises-tail}
use e2ee_app.Py.Exn.{type_error, ok, >>=-eq-ok}
use e2ee_app.Py.Text.{codes, text_eq→eq}
use e2ee_app.Py.Value.{
  Value, null, bool, int, neg_int, str, list, dict, other, nil, Fields, entries, get_default, key,
}

-- The steps of all jobs.
abbrev pub all_steps : List (Value × Value) → List Value
all_steps [] = []
all_steps ((_, def) ∷ jobs) = listed_steps def ++ all_steps jobs

-- A step of the name that runs the command, in the directory.
abbrev pub IsMatch : List Value → Value → Type 0
IsMatch steps wd =
    (s : Fields) × In (dict s) steps
    × (has_name s ≡ true)
    × (runs_pub_get s ≡ true)
    × (directory s ≡ wd)

see_step-matched :
    (s : Fields) (seen : Seen) (wd : Value)
    → (see_step s seen).matched ≡ some wd
    → (seen.matched ≡ some wd)
      ⊎ ((has_name s ≡ true) × (runs_pub_get s ≡ true) × (directory s ≡ wd))
see_step-matched s seen wd h = elim (Bool-cases (has_name s)) [
  | inr e ↦ inl (rw e at h)
  | inl e ↦ elim (Bool-cases (runs_pub_get s)) [
    | inr f ↦ inl (rw (e, f) at h)
    | inl f ↦ inr (e, f, some_eq (rw (e, f) at h))
  ]
]
  where
    some_eq : some (directory s) ≡ some wd → directory s ≡ wd
    some_eq p = cc

skip :
    {seen : Option Value} {wd : Value} {steps : List Value} (v : Value)
    → (seen ≡ some wd) ⊎ IsMatch steps wd
    → (seen ≡ some wd) ⊎ IsMatch (v ∷ steps) wd
skip v (inl e) = inl e
skip v (inr (t, m, a, b, c)) = inr (t, there m, a, b, c)

see_steps-matched :
    (steps : List Value) (seen : Seen) (wd : Value)
    → (see_steps steps seen).matched ≡ some wd
    → (seen.matched ≡ some wd) ⊎ IsMatch steps wd
unfolding see_steps
see_steps-matched [] seen wd h = inl h
see_steps-matched (dict s ∷ ss) seen wd h = elim (see_steps-matched ss (see_step s seen) wd h) [
  | inr (t, m, a, b, c) ↦ inr (t, there m, a, b, c)
  | inl e ↦ elim (see_step-matched s seen wd e) [
    | inl f ↦ inl f
    | inr (a, b, c) ↦ inr (s, here, a, b, c)
  ]
]
see_steps-matched (null ∷ ss) seen wd h = skip null (see_steps-matched ss seen wd h)
see_steps-matched (bool b ∷ ss) seen wd h = skip (bool b) (see_steps-matched ss seen wd h)
see_steps-matched (int n ∷ ss) seen wd h = skip (int n) (see_steps-matched ss seen wd h)
see_steps-matched (neg_int n ∷ ss) seen wd h = skip (neg_int n) (see_steps-matched ss seen wd h)
see_steps-matched (str t ∷ ss) seen wd h = skip (str t) (see_steps-matched ss seen wd h)
see_steps-matched (list vs ∷ ss) seen wd h = skip (list vs) (see_steps-matched ss seen wd h)
see_steps-matched (other t r b ∷ ss) seen wd h = skip (other t r b) (see_steps-matched ss seen wd h)

see_jobs-matched :
    (jobs : List (Value × Value)) (seen : Seen) (wd : Value)
    → (see_jobs jobs seen).matched ≡ some wd
    → (seen.matched ≡ some wd) ⊎ IsMatch (all_steps jobs) wd
unfolding see_jobs
see_jobs-matched [] seen wd h = inl h
see_jobs-matched ((_, def) ∷ jobs) seen wd h =
    elim (see_jobs-matched jobs (see_steps (listed_steps def) seen) wd h) [
      | inr (t, m, a, b, c) ↦ inr (t, In-append_right (listed_steps def) m, a, b, c)
      | inl e ↦ elim (see_steps-matched (listed_steps def) seen wd e) [
        | inl f ↦ inl f
        | inr (t, m, a, b, c) ↦ inr (t, In-append_left (all_steps jobs) m, a, b, c)
      ]
    ]

is_mobile-eq : (wd : Value) → is_mobile wd ≡ true → wd ≡ str (codes "./mobile")
is_mobile-eq (str s) h = ap str (text_eq→eq s (codes "./mobile") h)
is_mobile-eq null h = cc
is_mobile-eq (bool b) h = cc
is_mobile-eq (int n) h = cc
is_mobile-eq (neg_int n) h = cc
is_mobile-eq (list vs) h = cc
is_mobile-eq (dict d) h = cc
is_mobile-eq (other t r b) h = cc

ok_cons : {f : Finding} {fs : List Finding} → ok (f ∷ fs) ≡ ok [] → ⊥
ok_cons h = cc

judge_seen-passes :
    (jobs : List (Value × Value)) (named : Bool) (found : Option Value)
    → judge_seen jobs named found ≡ ok []
    → found ≡ some (str (codes "./mobile"))
unfolding judge_seen
judge_seen-passes jobs named (some wd) h = elim (Bool-cases (is_mobile wd)) [
  | inl e ↦ ap some (is_mobile-eq wd e)
  | inr e ↦ absurd (ok_cons (rw e at h))
]
judge_seen-passes jobs named none h =
    let (wd, _, e) = >>=-eq-ok (observed jobs none) (λ wd. ok (misses named wd ∷ [])) h in
    absurd (ok_cons e)

-- Where S6 passes, a step of some job has the name, runs `flutter pub get`, and does so in
-- `./mobile`.
pub check_jobs-IsMatch :
    (jobs : Fields)
    → check_jobs (dict jobs) ≡ ok []
    → IsMatch (all_steps (entries jobs)) (str (codes "./mobile"))
unfolding check_jobs
check_jobs-IsMatch jobs h =
    let seen = see_jobs (entries jobs) nothing_seen in
    elim (see_jobs-matched (entries jobs) nothing_seen (str (codes "./mobile"))
      (judge_seen-passes (entries jobs) seen.name_found seen.matched h)) [ inl e ↦ cc | inr m ↦ m ]

-- A job whose `steps:` has no value: `job_def.get("steps", [])` is `None`.
abbrev pub IsEmptyJob : Value → Type 0
IsEmptyJob def = (j : Fields) × (def ≡ dict j) × (get_default (key "steps") (list nil) j ≡ null)

unchecked_steps-Raises : (def : Value) → IsEmptyJob def → Raises (unchecked_steps def)
unchecked_steps-Raises def (j, e, n) = (type_error, ap unchecked_steps e ∙ ap iterate n)

observed-Raises :
    (jobs : List (Value × Value)) (wd : Option Value) (name def : Value)
    → In (name, def) jobs
    → IsEmptyJob def
    → Raises (observed jobs wd)
unfolding observed
observed-Raises [] wd name def m empty = elim m [ ]
observed-Raises ((_, def) ∷ jobs) wd name _ here empty =
    Raises-head (unchecked_steps def) (λ steps. observed jobs (observed_in steps wd))
      (unchecked_steps-Raises def empty)
observed-Raises ((_, other_def) ∷ jobs) wd name def (there m) empty =
    Raises-tail (unchecked_steps other_def) (λ steps. observed jobs (observed_in steps wd))
      (λ steps. observed-Raises jobs (observed_in steps wd) name def m empty)

judge_seen-Raises :
    (jobs : List (Value × Value)) (named : Bool) (name def : Value)
    → In (name, def) jobs
    → IsEmptyJob def
    → Raises (judge_seen jobs named none)
unfolding judge_seen
judge_seen-Raises jobs named name def m empty =
    Raises-head (observed jobs none) (λ wd. ok (misses named wd ∷ []))
      (observed-Raises jobs none name def m empty)

-- Where no step of the name runs the command, and some job has a `steps:` without a value, the
-- check stops with an exception and reports nothing.
pub check_jobs_empty_steps :
    (jobs : Fields) (name def : Value)
    → In (name, def) (entries jobs)
    → IsEmptyJob def
    → (see_jobs (entries jobs) nothing_seen).matched ≡ none
    → Raises (check_jobs (dict jobs))
unfolding check_jobs
check_jobs_empty_steps jobs name def m empty unmatched =
    let seen = see_jobs (entries jobs) nothing_seen in
    let crash = judge_seen-Raises (entries jobs) seen.name_found name def m empty in
    (crash.0, ap (judge_seen (entries jobs) seen.name_found) unmatched ∙ crash.1)
