-- ===== src/SelfTest/Main.antt =====
-- The end of tools/audit-self-test.py: the cases are run, and the exit status says whether each
-- gave the findings that it expects.
pub mod Status
use e2ee_app.Base.{ℕ, Bool, true, false, ◌&&◌, List, [], ◌∷◌, ◌++◌, length, if◌then◌else◌}
use e2ee_app.Py.Sort.{sorted}
use e2ee_app.Py.Text.{Text, text_eq}

-- A case: its name, what its copy returns on its texts, and what it expects.
pub record Case : Type 0 where
  pub name : Text
  pub actual : List Text
  pub expected : List Text

-- `==` of lists of texts.
unfoldable pub texts_eq : List Text → List Text → Bool
unfolding text_eq
texts_eq [] [] = true
texts_eq [] (u ∷ us) = false
texts_eq (t ∷ ts) [] = false
texts_eq (t ∷ ts) (u ∷ us) = text_eq t u && texts_eq ts us

-- `sorted(actual) == sorted(expected)`
abbrev pub is_ok : Case → Bool
is_ok c = texts_eq (sorted c.actual) (sorted c.expected)

-- What is printed: a line for each case, and at the end the number of the cases, or the names of
-- those that failed.
pub data Line : Type 0 where
  of_case : Bool → Case → Line
  self_test_ok : ℕ → Line
  self_test_failed : ℕ → Line
  failed_name : Text → Line

-- The loop over the cases: the lines, and `failed`.
unfoldable pub run_cases : List Case → List Line × List Text
unfolding texts_eq sorted
run_cases [] = ([], [])
run_cases (c ∷ cs) =
    let (lines, failed) = run_cases cs in
    (of_case (is_ok c) c ∷ lines, if is_ok c then failed else c.name ∷ failed)

abbrev pub name_lines : List Text → List Line
name_lines [] = []
name_lines (n ∷ ns) = failed_name n ∷ name_lines ns

-- What is printed at the end, and the exit status.
abbrev pub conclude : ℕ → List Text → List Line × ℕ
conclude n [] = (self_test_ok n ∷ [], 0)
conclude n (f ∷ fs) = (self_test_failed (length (f ∷ fs)) ∷ name_lines (f ∷ fs), 1)

-- The lines and the exit status.
unfoldable pub main : List Case → List Line × ℕ
unfolding run_cases
main cases =
    let (lines, failed) = run_cases cases in
    let (last, status) = conclude (length cases) failed in (lines ++ last, status)
