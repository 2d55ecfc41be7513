-- ===== src/Tests/OfAudit.antt =====
-- tools/workflow-yaml-audit.py on concrete files and documents.
use e2ee_app.Audit.Comments.Laws.{cut_line_trailing, cut_line_string, cut_line_prefix}
use e2ee_app.Audit.Comments.{cut_line, strip_comments}
use e2ee_app.Audit.Literals.Hits.{HoldsAll, IsHit, search_file_iff, find_hit-IsHit}
use e2ee_app.Audit.Literals.{
  auth_service, auth_needles, search_file, find_hit, service_files, api_key_needle,
}
use e2ee_app.Audit.PubGet.Misses.{IsMatch, all_steps, check_jobs-IsMatch, check_jobs_empty_steps}
use e2ee_app.Audit.PubGet.{check_jobs, see_jobs}
use e2ee_app.Audit.Pubspec.Baseline.{IsBaseline, check_s20_doc_iff}
use e2ee_app.Audit.Pubspec.{check_s20_doc}
use e2ee_app.Audit.Repo.{
  is_tracked, File, absent, content, GitRun, answered, Repo, version_low, file_missing,
}
use e2ee_app.Audit.Tracked.Wrapper.{
  check_fresh_create_metadata_tracked_iff, IsKept, check_gradle_wrapper_force_include_passes,
}
use e2ee_app.Audit.Tracked.{
  check_fresh_create_metadata_tracked, wrapper_files, re_include_patterns, gitignore_path,
  check_gradle_wrapper_force_include,
}
use e2ee_app.Audit.Versions.Wrapper.{archive, check_gradle_wrapper_version-archive}
use e2ee_app.Audit.Versions.{
  version_lt, flutter_min_gradle, gradle_props_path, check_gradle_wrapper_version,
}
use e2ee_app.Audit.Workflow.Steps.{
  HasFlutterSteps, IsJobComplete, judge_flags-scan_steps, audit_on-android_debug,
}
use e2ee_app.Audit.Workflow.{
  no_flags, scan_steps, judge_flags, audit_on, sorted_values, is_dispatch_only,
}
use e2ee_app.Base.{◌≡◌, ◌↔◌, ◌⊎◌, refl, true, false, List, [], ◌∷◌, ◌++◌, All, here, if◌then◌else◌}
use e2ee_app.Compose.Crash.{Raises}
use e2ee_app.Py.Exn.{ok}
use e2ee_app.Py.Re.Laws.{first_at}
use e2ee_app.Py.Text.{Text, codes, decimal, starts_with, contains, text_eq, strip}
use e2ee_app.Py.Value.{
  Value, null, str, list, dict, nil, cons, Fields, end, field, entries, keys, get_default, key,
}

cuts_comment : strip_comments (codes "a /* b\n c */ d // e") ≡ codes "a  d "
unfolding strip_comments
cuts_comment = refl

cut_line_trailing_example :
    cut_line false false (codes "a " ++ b'/' ∷ b'/' ∷ codes " \"b") ≡ codes "a "
cut_line_trailing_example = cut_line_trailing (codes "a ") (codes " \"b") (refl, (refl, tt))

cut_line_string_example :
    cut_line false false (codes "x " ++ b'"' ∷ (codes "h://" ++ b'"' ∷ codes "//y"))
    ≡ codes "x " ++ b'"' ∷ (codes "h://" ++ b'"' ∷ cut_line false false (codes "//y"))
cut_line_string_example =
    cut_line_string (codes "x ") (codes "h://") (codes "//y") (refl, (refl, tt))
      (refl, (refl, (refl, (refl, tt))))

cut_line_prefix_example :
    (comment : Text) × (cut_line false false (codes "a // b") ++ comment ≡ codes "a // b")
    × ((comment ≡ []) ⊎ (starts_with (codes "//") comment ≡ true))
cut_line_prefix_example = cut_line_prefix (codes "a // b")

-- A repository where every path holds the text, and git knows every path.
abbrev full_repo : Text → Repo
full_repo text = record { file = λ path. content text; ls_files = λ path. answered 0 (codes "x") }

abbrev url : Text
url = codes "url=" ++ archive (decimal 8) (decimal 10) []

abbrev old_url : Text
old_url = codes "url=" ++ archive (decimal 8) (decimal 6) []

accepts_8_10 : check_gradle_wrapper_version (full_repo url) ≡ ok []
unfolding check_gradle_wrapper_version e2ee_app.Audit.Versions.check_version
    e2ee_app.Audit.Versions.judge_version e2ee_app.Py.Re.search_from decimal
    e2ee_app.Py.Text.is_digit e2ee_app.Audit.Versions.version_of e2ee_app.Py.Text.parse_int_from
    e2ee_app.Py.Re.group_of
accepts_8_10 = refl

check_gradle_wrapper_version-archive_example :
    check_gradle_wrapper_version (full_repo old_url)
    ≡ ok (
        if version_lt (8, 6) flutter_min_gradle
        then version_low (codes "gradle-wrapper.properties") (8, 6) flutter_min_gradle ∷ []
        else [])
unfolding first_at starts_with
check_gradle_wrapper_version-archive_example =
    check_gradle_wrapper_version-archive (full_repo old_url) (codes "url=") [] 8 6 refl refl

abbrev named : Text → Fields → Fields
named name fs = field (key "name") (str name) fs

abbrev flutter_steps : Value
flutter_steps = list (
    cons
      (dict (
        field (key "uses") (str (codes "subosito/flutter-action@v2"))
          (field (key "with") (dict (field (key "flutter-version") (str (codes "3")) end)) end)))
      (cons
        (dict (
          named (codes "Generate local.properties")
            (field (key "run") (str (codes "which flutter; echo flutter.sdk=")) end)))
        (cons
          (dict (
            named (codes "Verify Flutter SDK path")
              (field (key "run") (str (codes "test -d flutter_tools/gradle")) end)))
          nil)))

abbrev steps_of_list : Value → List Value
steps_of_list (list (cons a (cons b (cons c nil)))) = a ∷ b ∷ c ∷ []
steps_of_list _ = []

judge_flags-scan_steps_example :
    (judge_flags
        (codes "android-debug.yml")
        (key "build")
        (scan_steps (steps_of_list flutter_steps) no_flags)
      ≡ [])
    ↔ HasFlutterSteps (steps_of_list flutter_steps)
judge_flags-scan_steps_example =
    judge_flags-scan_steps (codes "android-debug.yml") (key "build") (steps_of_list flutter_steps)

abbrev dispatch : Fields
dispatch = field (key "workflow_dispatch") null end

abbrev jobs : Fields
jobs = field (key "build") (dict (field (key "steps") flutter_steps end)) end

abbrev workflow : Fields
workflow = field (key "jobs") (dict jobs) end

audit_on-android_debug_example :
    ((ks : List Value) × (sorted_values (keys dispatch) ≡ ok ks) × (is_dispatch_only ks ≡ true))
    × All IsJobComplete (entries jobs)
unfolding audit_on e2ee_app.Py.Value.find e2ee_app.Py.Value.key_eq contains e2ee_app.Py.Repr.to_str
    starts_with
audit_on-android_debug_example = audit_on-android_debug workflow dispatch jobs refl refl

abbrev pub_get_jobs : Fields
pub_get_jobs =
    field (key "build")
      (dict (
        field (key "steps")
          (list (
            cons
              (dict (
                named (codes "Install Flutter dependencies") (
                  field (key "run") (str (codes "flutter pub get"))
                    (field (key "working-directory") (str (codes "./mobile")) end))))
              nil))
          end))
      end

check_jobs-IsMatch_example : IsMatch (all_steps (entries pub_get_jobs)) (str (codes "./mobile"))
unfolding check_jobs e2ee_app.Py.Value.find e2ee_app.Py.Value.key_eq contains e2ee_app.Py.Text.lower
    e2ee_app.Py.Repr.to_str starts_with
check_jobs-IsMatch_example = check_jobs-IsMatch pub_get_jobs refl

abbrev empty_job : Fields
empty_job = field (key "steps") null end

check_jobs_empty_steps_example :
    Raises (check_jobs (dict (field (key "build") (dict empty_job) end)))
unfolding see_jobs e2ee_app.Py.Value.find e2ee_app.Py.Value.key_eq
check_jobs_empty_steps_example =
    check_jobs_empty_steps (field (key "build") (dict empty_job) end) (key "build") (dict empty_job)
      here (empty_job, refl, refl) refl

search_file_iff_example :
    (search_file auth_service auth_needles (content (codes "post(/api/v1/auth user_id")) ≡ [])
    ↔ HoldsAll auth_needles (content (codes "post(/api/v1/auth user_id"))
search_file_iff_example =
    search_file_iff auth_service auth_needles (content (codes "post(/api/v1/auth user_id"))

find_hit-IsHit_example :
    IsHit
      (full_repo (codes "x"))
      api_key_needle
      service_files
      (find_hit (full_repo (codes "x")) api_key_needle service_files)
find_hit-IsHit_example = find_hit-IsHit (full_repo (codes "x")) api_key_needle service_files

abbrev sdk : Fields
sdk = field (key "sdk") (key "flutter") end

abbrev pubspec : Value
pubspec = dict (
    named (codes "opene2ee") (
      field (key "environment") (dict (field (key "sdk") (str (codes "^3")) end)) (
        field (key "dependencies") (dict (field (key "flutter") (dict sdk) end))
          (field (key "dev_dependencies") (dict (field (key "flutter_test") (dict sdk) end)) end))))

pubspec_passes : check_s20_doc (ok pubspec) ≡ ok []
unfolding check_s20_doc text_eq e2ee_app.Py.Value.find e2ee_app.Py.Value.key_eq
    e2ee_app.Py.Value.truthy
pubspec_passes = refl

check_s20_doc_iff_example :
    (check_s20_doc (ok pubspec) ≡ ok [])
    ↔ ((doc : Fields) × (ok pubspec ≡ ok (dict doc)) × IsBaseline doc)
check_s20_doc_iff_example = check_s20_doc_iff (ok pubspec)

abbrev gitignore : Text
gitignore =
    codes
      "!**/android/gradlew\n!**/android/gradlew.bat\n!**/android/gradle/wrapper/gradle-wrapper.jar\n"

check_gradle_wrapper_force_include_passes_example :
    All (IsKept (full_repo gitignore)) wrapper_files
    × ((text : Text) × ((full_repo gitignore).file gitignore_path ≡ content text)
        × All (λ p. contains p text ≡ true) re_include_patterns)
unfolding check_gradle_wrapper_force_include contains strip e2ee_app.Audit.Repo.is_tracked
    starts_with
check_gradle_wrapper_force_include_passes_example =
    check_gradle_wrapper_force_include_passes (full_repo gitignore) refl

check_fresh_create_metadata_tracked_iff_example :
    (check_fresh_create_metadata_tracked (full_repo []) ≡ []) ↔ (
      (is_tracked ((full_repo []).ls_files (codes "mobile/.metadata")) ≡ true)
      × (is_tracked ((full_repo []).ls_files (codes "mobile/android/.gitignore")) ≡ true))
check_fresh_create_metadata_tracked_iff_example =
    check_fresh_create_metadata_tracked_iff (full_repo [])
