-- ===== src/Audit/Gradle.antt =====
-- `check_app_build_gradle_syntax_v2` (S1 to S5), on the text without its comments.
use e2ee_app.Audit.Comments.{strip_comments}
use e2ee_app.Audit.Repo.{
  File, absent, unreadable, content, Repo, Finding, file_missing, s1_no_import, s2_no_import,
  s3_deprecated, s4_no_block, s5_qualified,
}
use e2ee_app.Audit.Workflow.{report_if}
use e2ee_app.Base.{not, List, [], ◌∷◌, ◌++◌}
use e2ee_app.Py.Exn.{os_error, Result, ok, raise}
use e2ee_app.Py.Re.{
  Re, seq, star, lazy, line_start, line_end, literal, char, plus, digit, space, any_char, occurs,
}
use e2ee_app.Py.Text.{Text, codes}

-- `^import\s+NAME\s*$`, under MULTILINE
abbrev pub import_re : Text → Re
import_re name = seq line_start (
    seq (literal (codes "import"))
      (seq (plus space) (seq (literal name) (seq (star space) line_end))))

-- `NAME\s*\{[\s\S]*?REST`
abbrev block_re : Text → Re → Re
block_re name rest =
    seq (literal name) (seq (star space) (seq (char b'{') (seq (lazy any_char) rest)))

-- `kotlinOptions\s*\{[\s\S]*?jvmTarget\s*=\s*\"[\d]+\"`
abbrev pub deprecated_re : Re
deprecated_re = block_re (codes "kotlinOptions") (
    seq (literal (codes "jvmTarget")) (
      seq (star space)
        (seq (char b'=') (seq (star space) (seq (char b'"') (seq (plus digit) (char b'"')))))))

-- `kotlin\s*\{[\s\S]*?compilerOptions\s*\{[\s\S]*?jvmTarget\.set\(JvmTarget\.JVM_17\)`
abbrev pub new_block_re : Re
new_block_re =
    block_re (codes "kotlin")
      (block_re (codes "compilerOptions") (literal (codes "jvmTarget.set(JvmTarget.JVM_17)")))

-- `java\.util\.Properties\(\)`
abbrev pub qualified_re : Re
qualified_re = literal (codes "java.util.Properties()")

unfoldable pub check_syntax : Text → List Finding
check_syntax code =
    report_if (not (occurs (import_re (codes "java.util.Properties")) code)) s1_no_import
    ++ (report_if
          (not (occurs (import_re (codes "org.jetbrains.kotlin.gradle.dsl.JvmTarget")) code))
          s2_no_import
        ++ (report_if (occurs deprecated_re code) s3_deprecated
            ++ (report_if (not (occurs new_block_re code)) s4_no_block
                ++ report_if (occurs qualified_re code) s5_qualified)))

unfoldable pub check_app_gradle : File → Result (List Finding)
unfolding check_syntax
check_app_gradle absent = ok (file_missing (codes "build.gradle.kts") ∷ [])
check_app_gradle unreadable = raise os_error
check_app_gradle (content text) = ok (check_syntax (strip_comments text))

unfoldable pub check_app_build_gradle_syntax_v2 : Repo → Result (List Finding)
unfolding check_app_gradle
check_app_build_gradle_syntax_v2 repo =
    check_app_gradle (repo.file (codes "mobile/android/app/build.gradle.kts"))
