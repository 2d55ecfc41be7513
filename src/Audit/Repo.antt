-- ===== src/Audit/Repo.antt =====
-- What the audit reads: files, the answers of git, and the YAML parser, which is not part of the
-- repository; and the findings that it returns, one constructor for each message.
use e2ee_app.Base.{ℕ, Bool, true, false, not, Option, List, ◌==◌, is_nil, if◌then◌else◌}
use e2ee_app.Py.Exn.{os_error, Result, ok, raise}
use e2ee_app.Py.Text.{Text, strip}
use e2ee_app.Py.Value.{Value}

-- A path of the repository: it is not there, or cannot be read as UTF-8, or holds a text.
pub data File : Type 0 where
  absent : File
  unreadable : File
  content : Text → File

-- `git ls-files`: it is not on the path or runs out of time, or it ends with a code and an output.
pub data GitRun : Type 0 where
  no_answer : GitRun
  answered : ℕ → Text → GitRun

pub record Repo : Type 0 where
  pub file : Text → File
  pub ls_files : Text → GitRun

-- PyYAML.
pub record Yaml : Type 0 where
  pub safe_load : Text → Result Value
  pub safe_load_all : Text → Result (List Value)

-- `path.exists()`
abbrev pub exists : File → Bool
exists absent = false
exists _ = true

-- `path.read_text(encoding="utf-8")`, of a path that may be missing.
abbrev pub read_text : File → Result Text
read_text (content t) = ok t
read_text _ = raise os_error

-- `_git_ls_files_tracked`: anything but an answer with an output is "not tracked".
unfoldable pub is_tracked : GitRun → Bool
unfolding strip
is_tracked no_answer = false
is_tracked (answered code out) = if code == 0 then not (is_nil (strip out)) else false

pub data Finding : Type 0 where
  file_missing read_failed parse_failed : Text → Finding
  -- a document whose top level is no mapping, with its type
  not_mapping : Text → Text → Finding
  -- audit_workflow
  one_document : Text → ℕ → Finding
  on_missing : Text → Finding
  on_not_dict : Text → Text → Finding
  triggers : Text → List Value → Finding
  no_flutter_setup no_version_pin no_which_flutter no_verify_step : Text → Value → Finding
  has_inputs : Text → Finding
  -- the versions: the file, what is declared, what is needed
  version_pattern : Text → Finding
  version_low : Text → ℕ × ℕ → ℕ × ℕ → Finding
  -- S1 to S5
  s1_no_import s2_no_import s3_deprecated s4_no_block s5_qualified : Finding
  -- S6: no step of the name; a step whose command is wrong, with the directory seen in some other
  -- step; a step whose directory is wrong
  s6_missing : Finding
  s6_misconfigured : Option Value → Finding
  s6_directory : Value → Finding
  -- S7
  s7_no_run_app s7_no_scope s7_no_riverpod s7_no_go_router : Finding
  -- S17: the untracked files with a flag for "tracked but missing on disk", the missing patterns
  s17 : List (Text × Bool) → List Text → Finding
  -- S18
  s18_not_tracked s18_no_packages s18_no_flutter : Finding
  s18_source : Value → Finding
  s18_patterns : List Text → Finding
  -- S19
  s19 : List Text → Finding
  -- S20
  s20 : List Text → Finding
  -- literals that must be there
  missing_literals : Text → List Text → Finding
  -- none of the files holds the literal; the files that could not be read
  no_file_holds : Text → List Text → Finding
