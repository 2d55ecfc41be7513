-- ===== src/Audit/Workflow/Steps.antt =====
-- What a pass of android-debug.yml shows about the steps of its jobs.
use e2ee_app.Audit.Workflow.{
  text_field, Flags, no_flags, is_setup, pins_version, is_which_flutter, is_verify, step_flags,
  scan_steps, steps_of, iterate, report_if, judge_flags, audit_jobs, check_debug_steps,
  check_inputs, sorted_values, is_dispatch_only, audit_on,
}
use e2ee_app.Audit.Repo.{Finding, triggers}
use e2ee_app.Base.{
  ◌↔◌, ◌≡◌, String, refl, sym, ap, ◌∙◌, Bool, true, false, not, ◌&&◌, ◌||◌, List, [], ◌∷◌, ◌++◌,
  All, if◌then◌else◌, arith,
}
use e2ee_app.Py.Exn.{ok, ◌>>=◌, >>=-eq-ok}
use e2ee_app.Py.Text.{Text, codes, contains, text_eq, text_eq_refl}
use e2ee_app.Py.Value.{
  Value, null, bool, int, neg_int, str, list, dict, other, Fields, end, entries, get_default, key,
  keys,
}

-- Some step is a mapping that satisfies the test.
abbrev pub some_step : (Fields → Bool) → List Value → Bool
some_step p [] = false
some_step p (dict s ∷ ss) = p s || some_step p ss
some_step p (_ ∷ ss) = some_step p ss

-- What the workflow must have, in its own words.
abbrev pub mentions : String → String → Fields → Bool
mentions text field_name s = contains (codes text) (text_field (key field_name) s)

abbrev pub sets_up : Fields → Bool
sets_up s = mentions "subosito/flutter-action" "uses" s

abbrev pub pinned_setup : Fields → Bool
pinned_setup s = sets_up s && pins_version s

-- A setup step ends its round before the later tests.
abbrev pub later_which : Fields → Bool
later_which s =
    not (sets_up s)
    && (mentions "Generate local.properties" "name" s
        && (mentions "which flutter" "run" s && mentions "flutter.sdk=" "run" s))

abbrev pub later_verify : Fields → Bool
later_verify s =
    not (sets_up s)
    && (mentions "Verify Flutter SDK path" "name" s && mentions "flutter_tools/gradle" "run" s)

abbrev with_steps : List Value → Flags → Flags
with_steps ss f = record {
  has_flutter_setup = f.has_flutter_setup || some_step is_setup ss;
  flutter_version_pinned = f.flutter_version_pinned || some_step pinned_setup ss;
  has_which_flutter_echo = f.has_which_flutter_echo || some_step later_which ss;
  has_verify_step = f.has_verify_step || some_step later_verify ss;
}

or_assoc : (a b c : Bool) → ((a || b) || c) ≡ (a || (b || c))
or_assoc true b c = refl
or_assoc false b c = refl

or_false : (a : Bool) → (a || false) ≡ a
or_false true = refl
or_false false = refl

step_flags-or :
    (s : Fields) (f : Flags)
    → step_flags s f ≡ record {
      has_flutter_setup = f.has_flutter_setup || is_setup s;
      flutter_version_pinned = f.flutter_version_pinned || pinned_setup s;
      has_which_flutter_echo = f.has_which_flutter_echo || later_which s;
      has_verify_step = f.has_verify_step || later_verify s;
    }
step_flags-or s f = by_tests (is_setup s) (pins_version s) (is_which_flutter s) (is_verify s) f
  where
    by_tests :
        (a p w v : Bool) (f : Flags)
        → (if a
            then record f {
              has_flutter_setup = true;
              flutter_version_pinned = if p then true else f.flutter_version_pinned;
            }
            else record f {
              has_which_flutter_echo = if w then true else f.has_which_flutter_echo;
              has_verify_step = if v then true else f.has_verify_step;
            })
          ≡ record {
            has_flutter_setup = f.has_flutter_setup || a;
            flutter_version_pinned = f.flutter_version_pinned || (a && p);
            has_which_flutter_echo = f.has_which_flutter_echo || (not a && w);
            has_verify_step = f.has_verify_step || (not a && v);
          }
    by_tests a p w v f = ground arith

scan_steps-with_steps : (ss : List Value) (f : Flags) → scan_steps ss f ≡ with_steps ss f
unfolding scan_steps
scan_steps-with_steps [] f = simp or_false
scan_steps-with_steps (dict s ∷ ss) f =
    ap (scan_steps ss) (step_flags-or s f) ∙ scan_steps-with_steps ss _ ∙ simp or_assoc
scan_steps-with_steps (null ∷ ss) f = scan_steps-with_steps ss f
scan_steps-with_steps (bool _ ∷ ss) f = scan_steps-with_steps ss f
scan_steps-with_steps (int _ ∷ ss) f = scan_steps-with_steps ss f
scan_steps-with_steps (neg_int _ ∷ ss) f = scan_steps-with_steps ss f
scan_steps-with_steps (str _ ∷ ss) f = scan_steps-with_steps ss f
scan_steps-with_steps (list _ ∷ ss) f = scan_steps-with_steps ss f
scan_steps-with_steps (other _ _ _ ∷ ss) f = scan_steps-with_steps ss f

-- The steps of a job have all that the audit asks for.
pub record HasFlutterSteps (ss : List Value) : Type 0 where
  pub setup : some_step sets_up ss ≡ true
  pub pinned : some_step pinned_setup ss ≡ true
  pub which : some_step later_which ss ≡ true
  pub verify : some_step later_verify ss ≡ true

judge_flags-eq-nil :
    (name : Text) (job : Value) (f : Flags)
    → judge_flags name job f ≡ []
    → (f.has_flutter_setup ≡ true)
      × (f.flutter_version_pinned ≡ true)
      × (f.has_which_flutter_echo ≡ true)
      × (f.has_verify_step ≡ true)
unfolding judge_flags
judge_flags-eq-nil name job f h = ground arith

judge_flags_all :
    (name : Text) (job : Value) (f : Flags)
    → f.has_flutter_setup ≡ true
    → f.flutter_version_pinned ≡ true
    → f.has_which_flutter_echo ≡ true
    → f.has_verify_step ≡ true
    → judge_flags name job f ≡ []
unfolding judge_flags
judge_flags_all name job f a b c d = ground arith

-- The steps of one job give no finding exactly when one of them uses `subosito/flutter-action`, in
-- whatever version of the action, one that does pins the version of Flutter, one that does not
-- derives the SDK's path by `which flutter`, and one that does not, which may be the same, verifies it;
-- the order of the steps does not matter, and neither do entries that are no mappings.
pub judge_flags-scan_steps :
    (name : Text) (job : Value) (ss : List Value)
    → (judge_flags name job (scan_steps ss no_flags) ≡ []) ↔ HasFlutterSteps ss
judge_flags-scan_steps name job ss =
    let same = scan_steps-with_steps ss no_flags in
    (
      λ h.
          let (a, b, c, d) =
            judge_flags-eq-nil name job (with_steps ss no_flags)
              (ap (judge_flags name job) (sym same) ∙ h) in
          record { setup = a; pinned = b; which = c; verify = d },
      λ r.
          ap (judge_flags name job) same
          ∙ judge_flags_all name job (with_steps ss no_flags) r.setup r.pinned r.which r.verify,
    )

-- A job's entry in the document: its steps can be walked over, and have what is asked for.
abbrev pub IsJobComplete : Value × Value → Type 0
IsJobComplete j = (ss : List Value) × (iterate (steps_of j.1) ≡ ok ss) × HasFlutterSteps ss

append-eq-nil {ℓ} : {A : Type ℓ} (xs ys : List A) → xs ++ ys ≡ [] → (xs ≡ []) × (ys ≡ [])
append-eq-nil [] ys h = (refl, h)
append-eq-nil (x ∷ xs) ys h = cc

ok-injective {ℓ} : {A : Type ℓ} {a b : A} → ok a ≡ ok b → a ≡ b
ok-injective h = cc

audit_jobs-eq-nil :
    (name : Text) (jobs : List (Value × Value))
    → audit_jobs name jobs ≡ ok []
    → All IsJobComplete jobs
unfolding audit_jobs
audit_jobs-eq-nil name [] h = tt
audit_jobs-eq-nil name ((job, def) ∷ jobs) h =
    let (ss, walked, more) =
      >>=-eq-ok (iterate (steps_of def))
        (λ ss. do
          rest ← audit_jobs name jobs
          ok (judge_flags name job (scan_steps ss no_flags) ++ rest))
        h in
    let (rest, audited, done) =
      >>=-eq-ok (audit_jobs name jobs)
        (λ rest. ok (judge_flags name job (scan_steps ss no_flags) ++ rest)) more in
    let (fine, none_left) =
      append-eq-nil (judge_flags name job (scan_steps ss no_flags)) rest (ok-injective done) in
    (
      (ss, walked, (judge_flags-scan_steps name job ss).0 fine),
      audit_jobs-eq-nil name jobs (audited ∙ ap ok none_left),
    )

report_if-eq-nil : (b : Bool) (f : Finding) → report_if (not b) f ≡ [] → b ≡ true
report_if-eq-nil true f h = refl
report_if-eq-nil false f h = cc

check_debug_steps-jobs :
    (name : Text) (d jobs : Fields)
    → text_eq name (codes "android-debug.yml") ≡ true
    → get_default (key "jobs") (dict end) d ≡ dict jobs
    → check_debug_steps name d ≡ audit_jobs name (entries jobs)
unfolding check_debug_steps
check_debug_steps-jobs name d jobs n e = rw (n, e)

audit_on-steps :
    (name : Text) (d on_block : Fields)
    → audit_on name d (dict on_block) ≡ ok []
    → ((ks : List Value) × (sorted_values (keys on_block) ≡ ok ks) × (is_dispatch_only ks ≡ true))
      × (check_debug_steps name d ≡ ok [])
      × (check_inputs name on_block ≡ [])
unfolding audit_on
audit_on-steps name d on_block h =
    let (ks, sorted, more) =
      >>=-eq-ok (sorted_values (keys on_block))
        (λ ks. do
          steps ← check_debug_steps name d
          ok (
              report_if (not (is_dispatch_only ks)) (triggers name ks)
              ++ (steps ++ check_inputs name on_block)))
        h in
    let (steps, checked, done) =
      >>=-eq-ok (check_debug_steps name d)
        (λ steps. ok (
          report_if (not (is_dispatch_only ks)) (triggers name ks)
          ++ (steps ++ check_inputs name on_block)))
        more in
    let (fine, others) =
      append-eq-nil (report_if (not (is_dispatch_only ks)) (triggers name ks)) _
        (ok-injective done) in
    let (no_steps, no_inputs) = append-eq-nil steps (check_inputs name on_block) others in
    (
      (ks, sorted, report_if-eq-nil (is_dispatch_only ks) (triggers name ks) fine),
      checked ∙ ap ok no_steps,
      no_inputs,
    )

-- A pass of android-debug.yml shows that its triggers are exactly `workflow_dispatch`, and that
-- the steps of each of its jobs set Flutter up, pin it, derive its path and verify it.
pub audit_on-android_debug :
    (d on_block jobs : Fields)
    → get_default (key "jobs") (dict end) d ≡ dict jobs
    → audit_on (codes "android-debug.yml") d (dict on_block) ≡ ok []
    → ((ks : List Value) × (sorted_values (keys on_block) ≡ ok ks) × (is_dispatch_only ks ≡ true))
      × All IsJobComplete (entries jobs)
audit_on-android_debug d on_block jobs e h =
    let name : Text = codes "android-debug.yml" in
    let (dispatch, steps, _) = audit_on-steps name d on_block h in
    (
      dispatch,
      audit_jobs-eq-nil name (entries jobs)
          (sym (check_debug_steps-jobs name d jobs (text_eq_refl name) e) ∙ steps),
    )
