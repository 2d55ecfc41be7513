-- ===== src/Audit/Body.antt =====
-- The body of a function, as some checks of tools/workflow-yaml-audit.py cut it out of a source: from
-- its opening brace on, with a depth that is counted up and down.
pub mod Balanced
use e2ee_app.Base.{
  ℕ, ◌+◌, ◌-◌, ◌&&◌, Bool, true, false, Option, none, some, List, [], ◌∷◌, ◌==◌, if◌then◌else◌,
}
use e2ee_app.Py.Re.{Re, Found, search_re}
use e2ee_app.Py.Text.{Text}

-- The loop from a depth on. It begins at an opening brace, so a closing brace is only met at depth
-- 1 at least.
abbrev pub next_depth : ℕ → ℕ → ℕ
next_depth c depth = if c == b'{' then depth + 1 else if c == b'}' then depth - 1 else depth

unfoldable pub to_close : ℕ → Text → Text
to_close depth [] = []
to_close depth (c ∷ s) =
    let rest = to_close (next_depth c depth) s in
    if c == b'}' && depth == 1 then c ∷ [] else c ∷ rest

-- The body behind a match that ends with the opening brace.
unfoldable pub body_of : Re → Text → Option Text
unfolding to_close
body_of e code = elim (search_re e code) [
  | none ↦ none
  | some f ↦ some (to_close 0 (b'{' ∷ f.after.rest))
]
