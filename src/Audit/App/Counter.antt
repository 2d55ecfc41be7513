-- ===== src/Audit/App/Counter.antt =====
-- `check_vpn_service_packets_observed_increment_invariant_v27` of tools/workflow-yaml-audit.py
-- (S84): where OpenE2eeVpnService.kt changes its packet counter.
pub mod Site
use e2ee_app.Audit.App.{vpn_service_kt}
use e2ee_app.Audit.Needs.{examine}
use e2ee_app.Audit.Repo.{Repo, Finding, missing_literals}
use e2ee_app.Audit.Strip.{strip_plain}
use e2ee_app.Base.{
  ℕ, ◌+◌, ◌-◌, Option, none, some, List, [], ◌∷◌, ◌++◌, ltb, length, take, drop, if◌then◌else◌,
}
use e2ee_app.Needs.{has, each}
use e2ee_app.Py.Re.{
  Re, Found, seq, opt, plus, star, cls, group, literal, char, space, word, spaced, occurs, matches,
  group_text,
}
use e2ee_app.Py.Text.{Text, codes, one_of, text_eq}

-- `packetsObserved\s*\.\s*incrementAndGet\s*\(\s*\)`
abbrev pub increment_re : Re
increment_re = spaced ("packetsObserved" ∷ "." ∷ "incrementAndGet" ∷ "(" ∷ ")" ∷ [])

-- `packetsObserved\s*\.\s*set\s*\(`
abbrev pub set_re : Re
set_re = spaced ("packetsObserved" ∷ "." ∷ "set" ∷ "(" ∷ [])

-- `packetsObserved\s*\.\s*set\s*\(\s*packetsObserved\s*\.\s*get\s*\(\s*\)\s*\+\s*1`
abbrev pub fake_re : Re
fake_re = spaced (
    "packetsObserved" ∷ "." ∷ "set" ∷ "(" ∷ "packetsObserved" ∷ "." ∷ "get" ∷ "(" ∷ ")" ∷ "+" ∷ "1"
    ∷ [])

-- `(?:private\s+)?fun\s+(\w+)\s*\(`
abbrev pub function_re : Re
function_re = seq (opt (seq (literal (codes "private")) (plus space))) (
    seq (literal (codes "fun"))
      (seq (plus space) (seq (group 1 (plus word)) (seq (star space) (char b'(')))))

-- The loop over the functions: the name of the last one that starts before a place.
unfoldable pub name_before : ℕ → List (ℕ × Found) → Text → Text
name_before place [] name = name
name_before place ((start, m) ∷ ms) name =
    let rest = name_before place ms (group_text 1 m) in if ltb start place then rest else name

abbrev pub enclosing : Text → ℕ → Text
enclosing code place = name_before place (matches function_re code) (codes "<unknown>")

-- `code[max(0, place - 600):place]`
abbrev pub window_before : Text → ℕ → Text
window_before code place = drop (place - 600) (take place code)

-- The only increment: the function that it is in, and what stands before it.
abbrev pub judge_site : Text → ℕ → List Text
judge_site code place =
    if text_eq (enclosing code place) (codes "startReaderThread")
    then (if has "extractMetadata" (window_before code place)
        then []
        else codes "NOT preceded by extractMetadata" ∷ [])
    else (codes "the single call site is in " ++ enclosing code place) ∷ []

-- There must be one increment; the places of several are left out.
abbrev pub judge_increments : Text → List (ℕ × Found) → List Text
judge_increments code [] = codes "ZERO packetsObserved.incrementAndGet call sites" ∷ []
judge_increments code ((place, _) ∷ []) = judge_site code place
judge_increments code (_ ∷ _ ∷ _) = codes "expected EXACTLY 1 call site" ∷ []

-- The loop over the calls of `set`, with the functions that may call it.
unfoldable pub judge_sets : List Text → Text → List (ℕ × Found) → List Text
judge_sets allowed code [] = []
judge_sets allowed code ((place, _) ∷ ms) =
    let rest = judge_sets allowed code ms in
    if one_of (enclosing code place) allowed
    then rest
    else (codes "packetsObserved.set( call is in " ++ enclosing code place) ∷ rest

abbrev pub judge_fake : Text → List Text
judge_fake code = if occurs fake_re code then codes "anti-pattern" ∷ [] else []

unfoldable pub counter_faults : List Text → Text → List Text
unfolding judge_sets text_eq
counter_faults allowed code =
    judge_increments code (matches increment_re code)
    ++ (judge_sets allowed code (matches set_re code) ++ judge_fake code)

abbrev pub session_functions : List Text
session_functions = codes "startCapture" ∷ codes "stopCapture" ∷ []

unfoldable pub check_vpn_service_packets_observed_increment_invariant_v27 : Repo → List Finding
unfolding counter_faults
check_vpn_service_packets_observed_increment_invariant_v27 repo =
    examine vpn_service_kt (repo.file vpn_service_kt) (λ text.
      each (missing_literals vpn_service_kt) (counter_faults session_functions (strip_plain text)))
