-- ===== src/Audit/Pubspec.antt =====
-- `check_mobile_entry_point_v4` (S7) and `check_pubspec_baseline_shape` (S20) of
-- tools/workflow-yaml-audit.py.
pub mod Baseline
use e2ee_app.Audit.Repo.{
  File, absent, unreadable, content, exists, Repo, Yaml, Finding, file_missing, parse_failed,
  not_mapping, s7_no_run_app, s7_no_scope, s7_no_riverpod, s7_no_go_router, s20,
}
use e2ee_app.Audit.Workflow.{report_if}
use e2ee_app.Base.{Bool, true, false, not, ◌&&◌, ◌||◌, List, [], ◌∷◌, ◌++◌, if◌then◌else◌}
use e2ee_app.Py.Exn.{Exn, yaml_error, os_error, Result, ok, raise, ◌>>=◌}
use e2ee_app.Py.Repr.{repr}
use e2ee_app.Py.Text.{Text, codes, contains, text_eq}
use e2ee_app.Py.Value.{
  Value, null, str, dict, Fields, end, get, get_default, has_key, key, truthy, is_str, type_name,
}

abbrev pub main_dart : Text
main_dart = codes "mobile/lib/main.dart"

abbrev pub pubspec_path : Text
pubspec_path = codes "mobile/pubspec.yaml"

-- Part (b) of S7.
abbrev pub check_main_dart : Text → List Finding
check_main_dart text =
    report_if (not (contains (codes "runApp(") text)) s7_no_run_app
    ++ report_if (not (contains (codes "ProviderScope") text)) s7_no_scope

-- `deps`, and `{}` for what is no mapping.
abbrev pub fields_of : Value → Fields
fields_of (dict deps) = deps
fields_of _ = end

abbrev pub check_dependencies : Fields → List Finding
check_dependencies deps =
    report_if (not (has_key (key "flutter_riverpod") deps)) s7_no_riverpod
    ++ report_if (not (has_key (key "go_router") deps)) s7_no_go_router

-- Part (c) of S7, on the outcome of `yaml.safe_load`.
unfoldable pub check_s7_doc : Result Value → Result (List Finding)
check_s7_doc (raise (yaml_error _)) = ok (parse_failed pubspec_path ∷ [])
check_s7_doc (raise e) = raise e
check_s7_doc (ok (dict doc)) =
    ok (check_dependencies (fields_of (get_default (key "dependencies") (dict end) doc)))
check_s7_doc (ok v) = ok (not_mapping pubspec_path (type_name v) ∷ [])

unfoldable pub check_s7_pubspec : Yaml → File → Result (List Finding)
unfolding check_s7_doc
check_s7_pubspec yaml absent = ok (file_missing pubspec_path ∷ [])
check_s7_pubspec yaml unreadable = raise os_error
check_s7_pubspec yaml (content text) = check_s7_doc (yaml.safe_load text)

abbrev check_entry_point : Yaml → Repo → File → Result (List Finding)
check_entry_point yaml repo absent = ok (file_missing main_dart ∷ [])
check_entry_point yaml repo unreadable = raise os_error
check_entry_point yaml repo (content text) = do
  rest ← check_s7_pubspec yaml (repo.file pubspec_path)
  ok (check_main_dart text ++ rest)

unfoldable pub check_mobile_entry_point_v4 : Yaml → Repo → Result (List Finding)
unfolding check_s7_pubspec
check_mobile_entry_point_v4 yaml repo = check_entry_point yaml repo (repo.file main_dart)

-- `v.get(k)` where v is a mapping, and `None` where it is not.
abbrev pub get_in : Value → Value → Value
get_in k (dict fs) = get k fs
get_in k _ = null

-- `isinstance(v, str) and v`
abbrev pub is_full : Value → Bool
is_full v = is_str v && truthy v

abbrev pub is_flutter : Value → Bool
is_flutter (str s) = text_eq s (codes "flutter")
is_flutter _ = false

abbrev pub missing_if : Bool → Text → List Text
missing_if true t = t ∷ []
missing_if false t = []

abbrev pub sdk_of : Value → Value → Value
sdk_of name deps = get_in (key "sdk") (get_in name deps)

abbrev pub flutter_dep_sdk : Fields → Value
flutter_dep_sdk doc = sdk_of (key "flutter") (get (key "dependencies") doc)

abbrev pub flutter_test_sdk : Fields → Value
flutter_test_sdk doc = sdk_of (key "flutter_test") (get (key "dev_dependencies") doc)

abbrev pub environment_sdk : Fields → Value
environment_sdk doc = get_in (key "sdk") (get (key "environment") doc)

-- `missing`
unfoldable pub missing_keys : Fields → List Text
unfolding repr
missing_keys doc =
    missing_if (not (is_full (get (key "name") doc))) (codes "name (non-empty string)")
    ++ (missing_if (not (is_full (environment_sdk doc)))
          (codes "environment.sdk (non-empty string)")
        ++ (missing_if (not (is_flutter (flutter_dep_sdk doc))) (
              codes "dependencies.flutter.sdk == 'flutter' (got "
              ++ (repr (flutter_dep_sdk doc) ++ codes ")"))
            ++ missing_if (not (is_flutter (flutter_test_sdk doc))) (
                codes "dev_dependencies.flutter_test.sdk == 'flutter' (got "
                ++ (repr (flutter_test_sdk doc) ++ codes ")"))))

abbrev pub report_s20 : List Text → List Finding
report_s20 [] = []
report_s20 (m ∷ ms) = s20 (m ∷ ms) ∷ []

unfoldable pub check_s20_doc : Result Value → Result (List Finding)
unfolding missing_keys
check_s20_doc (raise (yaml_error _)) = ok (parse_failed pubspec_path ∷ [])
check_s20_doc (raise e) = raise e
check_s20_doc (ok (dict doc)) = ok (report_s20 (missing_keys doc))
check_s20_doc (ok v) = ok (not_mapping pubspec_path (type_name v) ∷ [])

abbrev pub check_s20_file : Yaml → File → Result (List Finding)
check_s20_file yaml absent = ok (file_missing pubspec_path ∷ [])
check_s20_file yaml unreadable = raise os_error
check_s20_file yaml (content text) = check_s20_doc (yaml.safe_load text)

unfoldable pub check_pubspec_baseline_shape : Yaml → Repo → Result (List Finding)
unfolding check_s20_doc
check_pubspec_baseline_shape yaml repo = check_s20_file yaml (repo.file pubspec_path)
