-- ===== src/Needs.antt =====
-- What the checks of tools/workflow-yaml-audit.py and of tools/audit-self-test.py share: a list of
-- conditions on a text, and a message for each that does not hold, or one for all.
pub mod Laws
use e2ee_app.Base.{Bool, true, false, List, [], ◌∷◌, String, if◌then◌else◌}
use e2ee_app.Py.Text.{Text, codes, contains}

-- What a text needs; what the message says where the text has it not, up to its explanation; and
-- whether the check returns behind this message.
pub record Need : Type 0 where
  pub what : Text
  pub met : Text → Bool
  pub stops : Bool

-- `needle in text`
abbrev pub has : String → Text → Bool
has needle text = contains (codes needle) text

abbrev pub need : String → (Text → Bool) → Need
need what met = record { what = codes what; met = met; stops = false }

-- A need without which the check returns.
abbrev pub final : String → (Text → Bool) → Need
final what met = record { what = codes what; met = met; stops = true }

-- A literal, which the message names.
abbrev pub needle : String → Need
needle s = need s (has s)

-- What the messages name, one after the other.
unfoldable pub unmet : List Need → Text → List Text
unmet [] text = []
unmet (n ∷ ns) text =
    let rest = unmet ns text in if n.met text then rest else n.what ∷ (if n.stops then [] else rest)

-- One message for everything that is missing.
abbrev pub joined {ℓ} : {F : Type ℓ} → (List Text → F) → List Text → List F
joined report [] = []
joined report (m ∷ ms) = report (m ∷ ms) ∷ []

-- One message for each.
abbrev pub each {ℓ} : {F : Type ℓ} → (List Text → F) → List Text → List F
each report [] = []
each report (m ∷ ms) = report (m ∷ []) ∷ each report ms

-- The text as it is.
abbrev pub raw : Text → Text
raw text = text
