-- ===== src/SelfTest.antt =====
-- tools/audit-self-test.py: the copies of the audit's checks that its cases run, each on the text
-- that a case gives, or on `None`.
pub mod Screens
pub mod Manifest
pub mod Capture
pub mod Pairs
pub mod Netty
pub mod Flow
pub mod Forwarder
pub mod Releases
pub mod NetBare
pub mod Proxies
pub mod Services
pub mod Channel
pub mod Tunnel
pub mod Session
pub mod Score
pub mod Backend
pub mod Service
pub mod Counter
pub mod Lines
pub mod Documents
pub mod Laws
pub mod Agreement
pub mod Main
use e2ee_app.Base.{Option, none, some, List, [], ◌∷◌}
use e2ee_app.Needs.{Need, unmet, joined, each}
use e2ee_app.Py.Text.{Text}

-- What such a copy returns a list of: the message for a text that is `None`, or a message with
-- what it names.
pub data Failure : Type 0 where
  no_text : Failure
  failed : List Text → Failure

-- A copy with a message for each need.
unfoldable pub run_each : (Text → Text) → List Need → Option Text → List Failure
unfolding unmet
run_each strip needs none = no_text ∷ []
run_each strip needs (some text) = each failed (unmet needs (strip text))

-- A copy with one message in all.
unfoldable pub run_joined : (Text → Text) → List Need → Option Text → List Failure
unfolding unmet
run_joined strip needs none = no_text ∷ []
run_joined strip needs (some text) = joined failed (unmet needs (strip text))

-- A message for each text that is `None`.
abbrev missing_texts : List (Option Text) → List Failure
missing_texts [] = []
missing_texts (none ∷ ts) = no_text ∷ missing_texts ts
missing_texts (some _ ∷ ts) = missing_texts ts

-- A copy that returns where one of the texts is `None`.
unfoldable pub when_given : List (Option Text) → List Failure → List Failure
when_given texts rest = elim (missing_texts texts) [ [] ↦ rest | m ∷ ms ↦ m ∷ ms ]
