-- ===== src/SelfTest/Documents.antt =====
-- The copies of tools/audit-self-test.py about the Gradle syntax (S1 to S5), the documents that PyYAML
-- reads (S7, S18, S20) and the files that git tracks (S17, S19). They catch every exception of
-- `yaml.safe_load`.
use e2ee_app.Audit.Comments.{strip_comments}
use e2ee_app.Audit.Gradle.{import_re, deprecated_re, new_block_re, qualified_re}
use e2ee_app.Audit.Pubspec.{fields_of, get_in, is_full, is_flutter}
use e2ee_app.Audit.Repo.{Yaml}
use e2ee_app.Base.{
  Bool, true, false, not, ◌&&◌, Option, none, some, List, [], ◌∷◌, ◌++◌, String, if◌then◌else◌,
}
use e2ee_app.Needs.{Need, has, need, each, unmet}
use e2ee_app.Py.Exn.{Result, ok}
use e2ee_app.Py.Re.{occurs}
use e2ee_app.Py.Text.{Text, codes, contains, text_eq}
use e2ee_app.Py.Value.{Value, str, dict, end, get, get_default, has_key, key}
use e2ee_app.SelfTest.{Failure, failed, no_text}

abbrev fail : String → List Failure
fail s = failed (codes s ∷ []) ∷ []

abbrev fail_if : Bool → String → List Failure
fail_if true s = fail s
fail_if false s = []

abbrev pub syntax_mirror : List Need
syntax_mirror =
    need "S1" (occurs (import_re (codes "java.util.Properties")))
    ∷ need "S2" (occurs (import_re (codes "org.jetbrains.kotlin.gradle.dsl.JvmTarget")))
    ∷ need "S3" (λ code. not (occurs deprecated_re code))
    ∷ need "S4" (occurs new_block_re)
    ∷ need "S5" (λ code. not (occurs qualified_re code))
    ∷ []

-- `run_check`, which takes a text and no `None`.
unfoldable pub run_check : Text → List Failure
unfolding unmet strip_comments
run_check code_text = each failed (unmet syntax_mirror (strip_comments code_text))

-- The end of S7, on what `yaml.safe_load` returns or raises.
unfoldable pub run_s7_doc : Result Value → List Failure
run_s7_doc (ok (dict doc)) =
    let deps = fields_of (get_default (key "dependencies") (dict end) doc) in
    fail_if (not (has_key (key "flutter_riverpod") deps)) "S7"
    ++ fail_if (not (has_key (key "go_router") deps)) "S7"
run_s7_doc _ = fail "S7"

abbrev s7_main : Text → List Failure
s7_main text =
    fail_if (not (has "runApp(" text)) "S7" ++ fail_if (not (has "ProviderScope" text)) "S7"

abbrev s7_pubspec : Yaml → Option Text → List Failure
s7_pubspec yaml none = no_text ∷ []
s7_pubspec yaml (some text) = run_s7_doc (yaml.safe_load text)

unfoldable pub run_s7_check : Yaml → Option Text → Option Text → List Failure
unfolding run_s7_doc
run_s7_check yaml none pubspec_text = no_text ∷ []
run_s7_check yaml (some main_text) pubspec_text = s7_main main_text ++ s7_pubspec yaml pubspec_text

-- `all(p in text for p in patterns)`
unfoldable pub holds_all : List Text → Text → Bool
holds_all [] text = true
holds_all (p ∷ ps) text = contains p text && holds_all ps text

abbrev pub s17_patterns : List Text
s17_patterns =
    codes "!**/android/gradlew"
    ∷ codes "!**/android/gradlew.bat"
    ∷ codes "!**/android/gradle/wrapper/gradle-wrapper.jar"
    ∷ []

unfoldable pub run_s17_check : Text → Bool → Bool → Bool → List Failure
unfolding holds_all
run_s17_check gitignore_text gradlew_tracked gradlew_bat_tracked gradle_wrapper_jar_tracked =
    if not (gradlew_tracked && (gradlew_bat_tracked && gradle_wrapper_jar_tracked))
    then fail "S17"
    else fail_if (not (holds_all s17_patterns gitignore_text)) "S17"

abbrev pub s18_patterns : List Text
s18_patterns =
    codes "**/android/.gradle/"
    ∷ codes "**/android/local.properties"
    ∷ codes "**/.dart_tool/"
    ∷ codes "**/.flutter-plugins-dependencies"
    ∷ []

abbrev is_sdk : Value → Bool
is_sdk (str s) = text_eq s (codes "sdk")
is_sdk _ = false

abbrev s18_package : Text → Value → List Failure
s18_package gitignore_text (dict pkg) =
    if not (is_sdk (get (key "source") pkg))
    then fail "S18"
    else fail_if (not (holds_all s18_patterns gitignore_text)) "S18"
s18_package gitignore_text _ = fail "S18"

abbrev s18_packages : Text → Value → List Failure
s18_packages gitignore_text (dict packages) =
    s18_package gitignore_text (get (key "flutter") packages)
s18_packages gitignore_text _ = fail "S18"

unfoldable pub run_s18_doc : Text → Result Value → List Failure
unfolding holds_all text_eq
run_s18_doc gitignore_text (ok (dict doc)) = s18_packages gitignore_text (get (key "packages") doc)
run_s18_doc gitignore_text _ = fail "S18"

unfoldable pub run_s18_check : Yaml → Text → Option Text → List Failure
unfolding run_s18_doc
run_s18_check yaml gitignore_text none = no_text ∷ []
run_s18_check yaml gitignore_text (some text) = run_s18_doc gitignore_text (yaml.safe_load text)

unfoldable pub run_s19_check : Bool → Bool → List Failure
run_s19_check metadata_tracked android_gitignore_tracked =
    fail_if (not (metadata_tracked && android_gitignore_tracked)) "S19"

-- The tests of S20 one after the other; the first that fails ends the copy.
unfoldable pub run_s20_doc : Result Value → List Failure
run_s20_doc (ok (dict doc)) =
    if not (is_full (get (key "name") doc))
    then fail "S20"
    else if not (is_full (get_in (key "sdk") (get (key "environment") doc)))
    then fail "S20"
    else if not
        (is_flutter (get_in (key "sdk") (get_in (key "flutter") (get (key "dependencies") doc))))
    then fail "S20"
    else fail_if
        (not (
          is_flutter
            (get_in (key "sdk") (get_in (key "flutter_test") (get (key "dev_dependencies") doc)))))
        "S20"
run_s20_doc _ = fail "S20"

unfoldable pub run_s20_check : Yaml → Option Text → List Failure
unfolding run_s20_doc
run_s20_check yaml none = no_text ∷ []
run_s20_check yaml (some text) = run_s20_doc (yaml.safe_load text)
