-- ===== src/Audit/Tracked.antt =====
-- The files of the fresh skeleton: S17 (the Gradle wrapper), S18 (pubspec.lock) and S19.
pub mod Wrapper
use e2ee_app.Audit.Repo.{
  File, absent, unreadable, content, exists, read_text, GitRun, is_tracked, Repo, Yaml, Finding,
  file_missing, parse_failed, not_mapping, s17, s18_not_tracked, s18_no_packages, s18_no_flutter,
  s18_source, s18_patterns, s19,
}
use e2ee_app.Base.{Bool, true, false, not, ◌&&◌, ◌||◌, List, [], ◌∷◌, ◌++◌, is_nil, if◌then◌else◌}
use e2ee_app.Py.Exn.{Exn, yaml_error, os_error, Result, ok, raise, ◌>>=◌}
use e2ee_app.Py.Text.{Text, codes, contains, text_eq}
use e2ee_app.Py.Value.{Value, str, dict, Fields, get, key, type_name}

abbrev pub wrapper_files : List Text
wrapper_files =
    codes "mobile/android/gradlew"
    ∷ codes "mobile/android/gradlew.bat"
    ∷ codes "mobile/android/gradle/wrapper/gradle-wrapper.jar"
    ∷ []

abbrev pub re_include_patterns : List Text
re_include_patterns =
    codes "!**/android/gradlew"
    ∷ codes "!**/android/gradlew.bat"
    ∷ codes "!**/android/gradle/wrapper/gradle-wrapper.jar"
    ∷ []

abbrev pub exclude_patterns : List Text
exclude_patterns =
    codes "**/android/.gradle/"
    ∷ codes "**/android/local.properties"
    ∷ codes "**/.dart_tool/"
    ∷ codes "**/.flutter-plugins-dependencies"
    ∷ []

-- The patterns that the text lacks.
unfoldable pub missing_from : Text → List Text → List Text
missing_from text [] = []
missing_from text (p ∷ ps) =
    let rest = missing_from text ps in if contains p text then rest else p ∷ rest

-- The patterns that the root's .gitignore lacks; all of them, if it is missing.
unfoldable pub missing_patterns : File → List Text → Result (List Text)
unfolding missing_from
missing_patterns absent ps = ok ps
missing_patterns unreadable ps = raise os_error
missing_patterns (content text) ps = ok (missing_from text ps)

-- The files that git does not know, and with `true` those that it knows and the disk lacks.
unfoldable pub untracked : Repo → List Text → List (Text × Bool)
untracked repo [] = []
untracked repo (p ∷ ps) =
    let rest = untracked repo ps in
    if not (is_tracked (repo.ls_files p))
    then (p, false) ∷ rest
    else if not (exists (repo.file p))
    then (p, true) ∷ rest
    else rest

abbrev pub gitignore_path : Text
gitignore_path = codes ".gitignore"

abbrev pub report_s17 : List (Text × Bool) → List Text → List Finding
report_s17 [] [] = []
report_s17 files patterns = s17 files patterns ∷ []

unfoldable pub check_gradle_wrapper_force_include : Repo → Result (List Finding)
unfolding untracked missing_patterns
check_gradle_wrapper_force_include repo = do
  patterns ← missing_patterns (repo.file gitignore_path) re_include_patterns
  ok (report_s17 (untracked repo wrapper_files) patterns)

abbrev report_patterns : List Text → List Finding
report_patterns [] = []
report_patterns (p ∷ ps) = s18_patterns (p ∷ ps) ∷ []

abbrev is_sdk : Value → Bool
is_sdk (str s) = text_eq s (codes "sdk")
is_sdk _ = false

-- Sub-check (c) on `packages.flutter`, then (d).
unfoldable pub check_flutter_package : Repo → Value → Result (List Finding)
unfolding missing_patterns
check_flutter_package repo (dict pkg) =
    let source = get (key "source") pkg in
    if not (is_sdk source) then ok (s18_source source ∷ []) else (do
      patterns ← missing_patterns (repo.file gitignore_path) exclude_patterns
      ok (report_patterns patterns))
check_flutter_package repo v = ok (s18_no_flutter ∷ [])

abbrev check_packages : Repo → Value → Result (List Finding)
check_packages repo (dict packages) = check_flutter_package repo (get (key "flutter") packages)
check_packages repo v = ok (s18_no_packages ∷ [])

abbrev pub lock_path : Text
lock_path = codes "mobile/pubspec.lock"

-- Sub-check (b): a `YAMLError` is a finding, other exceptions go on.
unfoldable pub check_lock_doc : Repo → Result Value → Result (List Finding)
unfolding check_flutter_package
check_lock_doc repo (raise (yaml_error _)) = ok (parse_failed lock_path ∷ [])
check_lock_doc repo (raise e) = raise e
check_lock_doc repo (ok (dict lock)) = check_packages repo (get (key "packages") lock)
check_lock_doc repo (ok v) = ok (not_mapping lock_path (type_name v) ∷ [])

unfoldable pub check_lock_file : Yaml → Repo → File → Result (List Finding)
unfolding check_lock_doc
check_lock_file yaml repo absent = ok (file_missing lock_path ∷ [])
check_lock_file yaml repo unreadable = raise os_error
check_lock_file yaml repo (content text) = check_lock_doc repo (yaml.safe_load text)

unfoldable pub check_fresh_flutter_create_preserved : Yaml → Repo → Result (List Finding)
unfolding check_lock_file
check_fresh_flutter_create_preserved yaml repo =
    if not (is_tracked (repo.ls_files lock_path))
    then ok (s18_not_tracked ∷ [])
    else check_lock_file yaml repo (repo.file lock_path)

-- The paths of the list that git does not know.
unfoldable pub not_tracked : Repo → List Text → List Text
not_tracked repo [] = []
not_tracked repo (p ∷ ps) =
    let rest = not_tracked repo ps in if is_tracked (repo.ls_files p) then rest else p ∷ rest

abbrev pub metadata_files : List Text
metadata_files = codes "mobile/.metadata" ∷ codes "mobile/android/.gitignore" ∷ []

abbrev pub report_s19 : List Text → List Finding
report_s19 [] = []
report_s19 (p ∷ ps) = s19 (p ∷ ps) ∷ []

unfoldable pub check_fresh_create_metadata_tracked : Repo → List Finding
unfolding not_tracked
check_fresh_create_metadata_tracked repo = report_s19 (not_tracked repo metadata_files)
