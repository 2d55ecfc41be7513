-- ===== src/Audit/Workflow.antt =====
-- `audit_workflow`: the triggers of a workflow, and the Flutter steps of android-debug.yml.
pub mod Steps
use e2ee_app.Audit.Repo.{
  Repo, Yaml, Finding, one_document, on_missing, on_not_dict, triggers, no_flutter_setup,
  no_version_pin, no_which_flutter, no_verify_step, has_inputs,
}
use e2ee_app.Base.{
  ℕ, Bool, true, false, not, ◌&&◌, ◌||◌, Option, none, some, List, [], ◌∷◌, ◌++◌, ◌==◌, ltb, length,
  if◌then◌else◌,
}
use e2ee_app.Py.Exn.{type_error, attribute_error, Result, ok, raise, ◌>>=◌}
use e2ee_app.Py.Repr.{to_str}
use e2ee_app.Py.Text.{Text, codes, contains, text_eq, one_of, text_lt}
use e2ee_app.Py.Value.{
  Value, null, bool, int, neg_int, str, list, dict, other, Items, nil, cons, Fields, end, field,
  elements, keys, entries, find, get, get_default, has_key, key, type_name,
}

abbrev chars : Text → List Value
chars [] = []
chars (c ∷ s) = str (c ∷ []) ∷ chars s

-- `for x in v`
abbrev pub iterate : Value → Result (List Value)
iterate (list vs) = ok (elements vs)
iterate (dict fs) = ok (keys fs)
iterate (str s) = ok (chars s)
iterate _ = raise type_error

-- `v.items()`
abbrev pub items_of : Value → Result (List (Value × Value))
items_of (dict fs) = ok (entries fs)
items_of _ = raise attribute_error

abbrev bit : Bool → ℕ
bit true = 1
bit false = 0

-- `a < b`, where Python has an order: on strings, and on numbers.
unfoldable pub value_lt : Value → Value → Result Bool
unfolding text_lt
value_lt (str s) (str t) = ok (text_lt s t)
value_lt (int n) (int m) = ok (ltb n m)
value_lt (neg_int n) (int m) = ok true
value_lt (int n) (neg_int m) = ok false
value_lt (neg_int n) (neg_int m) = ok (ltb m n)
value_lt (bool a) (bool b) = ok (ltb (bit a) (bit b))
value_lt (bool a) (int m) = ok (ltb (bit a) m)
value_lt (int n) (bool b) = ok (ltb n (bit b))
value_lt (neg_int n) (bool b) = ok true
value_lt (bool a) (neg_int m) = ok false
value_lt _ _ = raise type_error

unfoldable pub insert_value : Value → List Value → Result (List Value)
unfolding value_lt
insert_value v [] = ok (v ∷ [])
insert_value v (w ∷ ws) = do
  below ← value_lt v w
  rest ← insert_value v ws
  ok (if below then v ∷ w ∷ ws else w ∷ rest)

-- `sorted(keys)`; values without an order raise `TypeError`.
unfoldable pub sorted_values : List Value → Result (List Value)
unfolding insert_value
sorted_values [] = ok []
sorted_values (v ∷ vs) = do ws ← sorted_values vs; insert_value v ws

-- `trigger_keys == ["workflow_dispatch"]`
unfoldable pub is_dispatch_only : List Value → Bool
unfolding text_eq
is_dispatch_only (str s ∷ []) = text_eq s (codes "workflow_dispatch")
is_dispatch_only _ = false

pub record Flags : Type 0 where
  pub has_flutter_setup : Bool
  pub flutter_version_pinned : Bool
  pub has_which_flutter_echo : Bool
  pub has_verify_step : Bool

abbrev pub no_flags : Flags
no_flags = record {
  has_flutter_setup = false;
  flutter_version_pinned = false;
  has_which_flutter_echo = false;
  has_verify_step = false;
}

-- `str(s.get(k, ""))`
abbrev pub text_field : Value → Fields → Text
text_field k s = to_str (get_default k (str []) s)

abbrev pub is_setup : Fields → Bool
is_setup s = contains (codes "subosito/flutter-action") (text_field (key "uses") s)

abbrev pub pins_version_in : Value → Bool
pins_version_in (dict w) = has_key (key "flutter-version") w
pins_version_in _ = false

abbrev pub pins_version : Fields → Bool
pins_version s = pins_version_in (get_default (key "with") (dict end) s)

abbrev pub is_which_flutter : Fields → Bool
is_which_flutter s =
    contains (codes "Generate local.properties") (text_field (key "name") s)
    && (contains (codes "which flutter") (text_field (key "run") s)
        && contains (codes "flutter.sdk=") (text_field (key "run") s))

abbrev pub is_verify : Fields → Bool
is_verify s =
    contains (codes "Verify Flutter SDK path") (text_field (key "name") s)
    && contains (codes "flutter_tools/gradle") (text_field (key "run") s)

-- The body of the loop over the steps, on a mapping. A setup step ends the round.
abbrev pub step_flags : Fields → Flags → Flags
step_flags s f =
    if is_setup s
    then record f {
      has_flutter_setup = true;
      flutter_version_pinned = if pins_version s then true else f.flutter_version_pinned;
    }
    else record f {
      has_which_flutter_echo = if is_which_flutter s then true else f.has_which_flutter_echo;
      has_verify_step = if is_verify s then true else f.has_verify_step;
    }

unfoldable pub scan_steps : List Value → Flags → Flags
scan_steps [] f = f
scan_steps (dict s ∷ ss) f = scan_steps ss (step_flags s f)
scan_steps (v ∷ ss) f = scan_steps ss f

-- `job_def.get("steps", []) if isinstance(job_def, dict) else []`
abbrev pub steps_of : Value → Value
steps_of (dict j) = get_default (key "steps") (list nil) j
steps_of _ = list nil

abbrev pub report_if : Bool → Finding → List Finding
report_if b f = if b then f ∷ [] else []

unfoldable pub judge_flags : Text → Value → Flags → List Finding
judge_flags name job f =
    report_if (not f.has_flutter_setup) (no_flutter_setup name job)
    ++ (report_if (not f.flutter_version_pinned) (no_version_pin name job)
        ++ (report_if (not f.has_which_flutter_echo) (no_which_flutter name job)
            ++ report_if (not f.has_verify_step) (no_verify_step name job)))

unfoldable pub audit_jobs : Text → List (Value × Value) → Result (List Finding)
unfolding scan_steps judge_flags
audit_jobs name [] = ok []
audit_jobs name ((job, def) ∷ jobs) = do
  steps ← iterate (steps_of def)
  rest ← audit_jobs name jobs
  ok (judge_flags name job (scan_steps steps no_flags) ++ rest)

unfoldable pub check_debug_steps : Text → Fields → Result (List Finding)
unfolding audit_jobs
check_debug_steps name d =
    if text_eq name (codes "android-debug.yml")
    then (do jobs ← items_of (get_default (key "jobs") (dict end) d); audit_jobs name jobs)
    else ok []

abbrev pub single_runner : List Text
single_runner = codes "ci.yml" ∷ codes "ios.yml" ∷ codes "android-release.yml" ∷ []

abbrev pub has_inputs_in : Value → Bool
has_inputs_in (dict wd) = has_key (key "inputs") wd
has_inputs_in _ = false

unfoldable pub check_inputs : Text → Fields → List Finding
unfolding one_of
check_inputs name on_block =
    report_if (one_of name single_runner && has_inputs_in (get (key "workflow_dispatch") on_block))
      (has_inputs name)

-- From the `on:` block on.
unfoldable pub audit_on : Text → Fields → Value → Result (List Finding)
unfolding sorted_values is_dispatch_only check_debug_steps check_inputs
audit_on name d null = ok (on_missing name ∷ [])
audit_on name d (dict on_block) = do
  trigger_keys ← sorted_values (keys on_block)
  steps ← check_debug_steps name d
  ok (
      report_if (not (is_dispatch_only trigger_keys)) (triggers name trigger_keys)
      ++ (steps ++ check_inputs name on_block))
audit_on name d v = ok (on_not_dict name (type_name v) ∷ [])

-- From the parsed documents on.
unfoldable pub audit_docs : Text → List Value → Result (List Finding)
unfolding audit_on
audit_docs name (null ∷ []) = ok (one_document name 1 ∷ [])
audit_docs name (dict d ∷ []) = audit_on name d (get (bool true) d)
audit_docs name (v ∷ []) = raise attribute_error
audit_docs name docs = ok (one_document name (length docs) ∷ [])

-- `audit_workflow`, on the text of the file.
unfoldable pub audit_workflow : Yaml → Text → Text → Result (List Finding)
unfolding audit_docs
audit_workflow yaml name text = do docs ← yaml.safe_load_all text; audit_docs name docs
