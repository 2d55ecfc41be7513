-- ===== src/SelfTest/Counter.antt =====
-- `run_s84_check` of tools/audit-self-test.py: where OpenE2eeVpnService.kt changes its packet counter.
use e2ee_app.Audit.Strip.{strip_plain}
use e2ee_app.Base.{ℕ, ◌-◌, Option, none, some, List, [], ◌∷◌, ◌++◌, ltb, take, drop, if◌then◌else◌}
use e2ee_app.Needs.{has, each}
use e2ee_app.Py.Re.{
  Re, Found, seq, opt, plus, star, group, literal, char, space, word, spaced, occurs, matches,
  group_text,
}
use e2ee_app.Py.Text.{Text, codes, text_eq}
use e2ee_app.SelfTest.{Failure, failed, no_text}

-- `packetsObserved\s*\.\s*incrementAndGet\s*\(\s*\)`
abbrev pub s84_increment_re : Re
s84_increment_re = spaced ("packetsObserved" ∷ "." ∷ "incrementAndGet" ∷ "(" ∷ ")" ∷ [])

-- `packetsObserved\s*\.\s*set\s*\(`
abbrev pub s84_set_re : Re
s84_set_re = spaced ("packetsObserved" ∷ "." ∷ "set" ∷ "(" ∷ [])

-- `packetsObserved\s*\.\s*set\s*\(\s*packetsObserved\s*\.\s*get\s*\(\s*\)\s*\+\s*1`
abbrev pub s84_fake_re : Re
s84_fake_re = spaced (
    "packetsObserved" ∷ "." ∷ "set" ∷ "(" ∷ "packetsObserved" ∷ "." ∷ "get" ∷ "(" ∷ ")" ∷ "+" ∷ "1"
    ∷ [])

-- `(?:private\s+)?fun\s+(\w+)\s*\(`
abbrev pub s84_function_re : Re
s84_function_re = seq (opt (seq (literal (codes "private")) (plus space))) (
    seq (literal (codes "fun"))
      (seq (plus space) (seq (group 1 (plus word)) (seq (star space) (char b'(')))))

-- The loop over the functions, up to the first one that does not start before the place.
unfoldable pub s84_last_name : ℕ → List (ℕ × Found) → Text → Text
s84_last_name place [] func_name = func_name
s84_last_name place ((start, fm) ∷ fms) func_name =
    let rest = s84_last_name place fms (group_text 1 fm) in
    if ltb start place then rest else func_name

abbrev pub s84_func_name : Text → ℕ → Text
s84_func_name code place = s84_last_name place (matches s84_function_re code) (codes "<unknown>")

-- The two tests of the only increment.
abbrev pub s84_site : Text → ℕ → List Text
s84_site code inc_pos =
    if text_eq (s84_func_name code inc_pos) (codes "startReaderThread")
    then (if has "extractMetadata" (drop (inc_pos - 600) (take inc_pos code))
        then []
        else codes "increment in startReaderThread but NOT preceded by extractMetadata" ∷ [])
    else (codes "increment in "
        ++ (s84_func_name code inc_pos ++ codes ", NOT in startReaderThread"))
      ∷ []

abbrev pub s84_increments : Text → List (ℕ × Found) → List Text
s84_increments code [] = codes "ZERO packetsObserved.incrementAndGet call sites" ∷ []
s84_increments code ((inc_pos, _) ∷ []) = s84_site code inc_pos
s84_increments code (_ ∷ _ ∷ _) =
    codes "packetsObserved.incrementAndGet call site(s); expected 1" ∷ []

-- The loop over the calls of `set`, which only `startCapture` may hold.
unfoldable pub s84_sets : Text → List (ℕ × Found) → List Text
unfolding text_eq
s84_sets code [] = []
s84_sets code ((sm_pos, _) ∷ ms) =
    let rest = s84_sets code ms in
    if text_eq (s84_func_name code sm_pos) (codes "startCapture")
    then rest
    else (codes "packetsObserved.set( in "
        ++ (s84_func_name code sm_pos ++ codes ", NOT in startCapture"))
      ∷ rest

abbrev pub s84_fake : Text → List Text
s84_fake code =
    if occurs s84_fake_re code then codes "contains fake-increment anti-pattern" ∷ [] else []

unfoldable pub s84_findings : Text → List Text
unfolding s84_sets text_eq
s84_findings code =
    s84_increments code (matches s84_increment_re code)
    ++ (s84_sets code (matches s84_set_re code) ++ s84_fake code)

unfoldable pub run_s84_check : Option Text → List Failure
unfolding s84_findings
run_s84_check none = no_text ∷ []
run_s84_check (some opene2ee_vpn_service_text) =
    each failed (s84_findings (strip_plain opene2ee_vpn_service_text))
