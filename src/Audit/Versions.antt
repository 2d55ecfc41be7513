-- ===== src/Audit/Versions.antt =====
-- The three version checks: the Gradle wrapper, the Android plugin and the Kotlin plugin.
pub mod Wrapper
use e2ee_app.Audit.Repo.{
  File, absent, unreadable, content, Repo, Finding, file_missing, version_pattern, version_low,
}
use e2ee_app.Base.{
  ℕ, Bool, ◌&&◌, ◌||◌, Option, none, some, List, [], ◌∷◌, ◌++◌, ltb, ◌==◌, if◌then◌else◌,
}
use e2ee_app.Py.Exn.{os_error, Result, ok, raise}
use e2ee_app.Py.Re.{
  Re, seq, group, literal, char, opt, plus, digit, space, Found, search_re, group_text, search_from,
  group_of,
}
use e2ee_app.Py.Text.{Text, codes, parse_int, parse_int_from}

abbrev pub Version : Type 0
Version = ℕ × ℕ

-- `a < b`, on pairs.
abbrev pub version_lt : Version → Version → Bool
version_lt (a, b) (c, d) = ltb a c || (a == c && ltb b d)

abbrev pub flutter_min_gradle : Version
flutter_min_gradle = (8, 7)

abbrev pub flutter_min_agp : Version
flutter_min_agp = (8, 6)

abbrev pub flutter_min_kotlin : Version
flutter_min_kotlin = (2, 2)

-- `gradle-(\d+)\.(\d+)(?:-bin)?\.zip`
abbrev pub gradle_re : Re
gradle_re = seq (literal (codes "gradle-")) (
    seq (group 1 (plus digit)) (
      seq (char b'.')
        (seq (group 2 (plus digit)) (seq (opt (literal (codes "-bin"))) (literal (codes ".zip"))))))

-- `id\("NAME"\)\s+version\s+"(\d+)\.(\d+)(?:\.(\d+))?"`
abbrev pub plugin_re : Text → Re
plugin_re name = seq (literal (codes "id(\"" ++ (name ++ codes "\")"))) (
    seq (plus space) (
      seq (literal (codes "version")) (
        seq (plus space) (
          seq (char b'"') (
            seq (group 1 (plus digit)) (
              seq (char b'.') (
                seq (group 2 (plus digit))
                  (seq (opt (seq (char b'.') (group 3 (plus digit)))) (char b'"')))))))))

abbrev pub agp_re : Re
agp_re = plugin_re (codes "com.android.application")

abbrev pub kotlin_re : Re
kotlin_re = plugin_re (codes "org.jetbrains.kotlin.android")

-- `(int(match.group(1)), int(match.group(2)))`
unfoldable pub version_of : Found → Version
version_of m = (parse_int (group_text 1 m), parse_int (group_text 2 m))

-- What is behind the search: no match, or a version that may be too low.
unfoldable pub judge_version : Text → Version → Option Found → List Finding
judge_version name minimum none = version_pattern name ∷ []
judge_version name minimum (some m) =
    let version = version_of m in
    if version_lt version minimum then version_low name version minimum ∷ [] else []

-- The body that the three checks share.
unfoldable pub check_version : Text → Re → Version → File → Result (List Finding)
check_version name pattern' minimum absent = ok (file_missing name ∷ [])
check_version name pattern' minimum unreadable = raise os_error
check_version name pattern' minimum (content text) =
    ok (judge_version name minimum (search_re pattern' text))

abbrev pub gradle_props_path : Text
gradle_props_path = codes "mobile/android/gradle/wrapper/gradle-wrapper.properties"

abbrev pub build_gradle_path : Text
build_gradle_path = codes "mobile/android/build.gradle.kts"

unfoldable pub check_gradle_wrapper_version : Repo → Result (List Finding)
check_gradle_wrapper_version repo =
    check_version (codes "gradle-wrapper.properties") gradle_re flutter_min_gradle
      (repo.file gradle_props_path)

unfoldable pub check_agp_version : Repo → Result (List Finding)
check_agp_version repo =
    check_version (codes "build.gradle.kts") agp_re flutter_min_agp (repo.file build_gradle_path)

unfoldable pub check_kotlin_version : Repo → Result (List Finding)
check_kotlin_version repo =
    check_version (codes "build.gradle.kts") kotlin_re flutter_min_kotlin
      (repo.file build_gradle_path)
