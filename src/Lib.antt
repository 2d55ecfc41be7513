-- ===== src/Lib.antt =====
-- A verification library for the Python tools of this repository: the checks that guard its
-- infrastructure files, its workflows and the sources of its mobile app.
--
-- Parts and files
--   Base        names passed on from the libraries, Boolean tests on numbers, lists
--   Py          what the tools use of Python: exceptions as values (Exn), text as lists of code
--               points (Text), regular expressions as a backtracking matcher (Re, Sub),
--               dictionaries (Dict), the values of a YAML document (Value) and their repr (Repr), and
--               sorted (Sort)
--   Scanner     tools/lib/scanner.py: strip_comments_line, strip_file and match_file under their
--               names, and main in Scanner.Command; the three flags are the record Blocks, the
--               position in the line is the rest of the line, and the loop is strip_from with its
--               body in step
--   Env         infra/scripts/validate_env.py: expand (with ENV_RE as env_re and the callback repl),
--               walk and load_env_file; Env.Main is main, whose two tests are conclude and
--               check_required
--   Compose     infra/scripts/validate_compose.py: validate, with one function for each nested
--               block, and main; summary keeps of the printed lines the exceptions that they raise
--   Audit       tools/workflow-yaml-audit.py: Repo is what a check reads (files, answers of git,
--               the YAML parser) and what it reports; Comments is strip_comments, Workflow is
--               audit_workflow, Versions the Gradle, Android plugin and Kotlin minimum versions,
--               Gradle S1 to S5, PubGet S6, Pubspec S7 and S20, Tracked S17 to S19, Literals S26,
--               S33 to S39 and S66 to S68; Strip is the comment strippers in the bodies of the
--               checks, Needs the frame that the checks of the mobile app and the backend share,
--               App has those checks by the files that they search, each as the list of what
--               it asks for (sN_needs) and the check itself under its name, and Body is how
--               some of them cut the body of a function out
--   Needs       a list of conditions on a text with the message of each, and what is reported where
--               some do not hold
--   SelfTest    tools/audit-self-test.py: run_sN_check with its conditions in sN_mirror, by the
--               files that the texts come from; Agreement pairs them with the checks of Audit, Main
--               is the loop over the cases and the exit status
--   Dex         tools/check_dex_tokens.py, and Dex.Apk tools/check_dex_tokens_12fplus4.py
--   Tests       runs at concrete inputs, and the theorems applied to them
-- The tools do not call each other; they share Py, and the checks of Audit share Repo. The self-test
-- holds its own copies of the checks, so the two are modelled each from its own file; only the
-- comment strippers that both repeat, the four patterns of S1 to S5 and what S7 and S20 read of a
-- document are defined once.
--
-- Fuel. strip_from has the length of the line as fuel, extract_from the number of bytes: each round
-- moves on by one character at least. The matcher's stars and the substitution have one more round
-- than characters are left, since a round that consumes nothing ends them.
--
-- Numbers are natural numbers; no tool computes with machine integers. Python's integers below 0
-- are a constructor of their own among the YAML values.
--
-- Not under verification: PyYAML, git, the file system and the process environment are parameters,
-- an argument of the definitions that use them. A file that cannot be decoded or read raises the
-- exception os_error where the tool does not catch it. Printed lines are left out where nothing but
-- the terminal reads them; a finding or an issue is a constructor with what its message names.
-- A message of the app checks is kept up to its explanation, without the number of the check
-- and the numbers of lines.
-- `find` is one more than Python's index, so that 0 stands for -1. The pattern matcher's `\d` is
-- ASCII, and its `\w` reaches to U+02C1. Iterating a YAML set or bytes raises TypeError here.
-- Of tools/workflow-yaml-audit.py, the checks S8 to S16 (XML, JSON and the engine hash), S25, S30
-- to S32, S86 (all files of a directory) and main; of tools/audit-self-test.py, S6, S8 to S13, S86
-- and the texts of the cases; infra/kong/smoke-jwt.py, and the Go, Dart and Kotlin code are not modelled.
pub mod Audit
pub mod Base
pub mod Compose
pub mod Dex
pub mod Env
pub mod Needs
pub mod Py
pub mod Scanner
pub mod SelfTest
pub mod Tests
