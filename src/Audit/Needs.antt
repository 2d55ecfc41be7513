-- ===== src/Audit/Needs.antt =====
-- What many checks of tools/workflow-yaml-audit.py share: a file is read, and each of a list of
-- needs must hold of its text.
pub mod Laws
use e2ee_app.Audit.Repo.{
  File, absent, unreadable, content, Finding, file_missing, read_failed, missing_literals,
}
use e2ee_app.Base.{List, [], ◌∷◌}
use e2ee_app.Needs.{Need, unmet, joined, each}
use e2ee_app.Py.Text.{Text}

-- The start of such a check: the file must be there and readable.
abbrev pub examine : Text → File → (Text → List Finding) → List Finding
examine path absent body = file_missing path ∷ []
examine path unreadable body = read_failed path ∷ []
examine path (content text) body = body text

-- The check of a list of needs, with one message in all.
unfoldable pub check_joined : (Text → Text) → Text → List Need → File → List Finding
unfolding unmet
check_joined strip path needs file =
    examine path file (λ text. joined (missing_literals path) (unmet needs (strip text)))

-- The check of a list of needs, with a message for each.
unfoldable pub check_each : (Text → Text) → Text → List Need → File → List Finding
unfolding unmet
check_each strip path needs file =
    examine path file (λ text. each (missing_literals path) (unmet needs (strip text)))

-- `for cand in candidates: if cand.exists(): break`
abbrev pub first_file : File → File → File
first_file absent second = second
first_file first second = first

-- A check that searches the empty text where the file cannot be read, and goes on.
unfoldable pub blank_each : (Text → Text) → Text → List Need → File → List Finding
unfolding unmet
blank_each strip path needs absent = file_missing path ∷ []
blank_each strip path needs unreadable =
    read_failed path ∷ each (missing_literals path) (unmet needs (strip []))
blank_each strip path needs (content text) = each (missing_literals path) (unmet needs (strip text))
