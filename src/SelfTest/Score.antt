-- ===== src/SelfTest/Score.antt =====
-- The copies of tools/audit-self-test.py about the score calculator and its tests:
-- S62, S63, S64, S72.
use e2ee_app.Base.{not, Option, ltb, ◌&&◌, List, [], ◌∷◌}
use e2ee_app.Needs.{Need, has, need, needle, raw}
use e2ee_app.Py.Text.{Text, codes, count}
use e2ee_app.SelfTest.{Failure, run_each, run_joined}

abbrev pub s62_mirror : List Need
s62_mirror =
    needle "class SessionScoreCalculator"
    ∷ need "static SessionScore compute method" (has "static SessionScore compute")
    ∷ []

unfoldable pub run_s62_check : Option Text → List Failure
run_s62_check score_calculator_text = run_joined raw s62_mirror score_calculator_text

abbrev pub s63_mirror : List Need
s63_mirror =
    need "encryptionIntegrityPct metric" (has "encryptionIntegrityPct")
    ∷ need "packetLossPct metric" (has "packetLossPct")
    ∷ need "meanLatencyMs metric" (has "meanLatencyMs")
    ∷ need "jitterMs metric" (has "jitterMs")
    ∷ []

unfoldable pub run_s63_check : Option Text → List Failure
run_s63_check score_calculator_text = run_joined raw s63_mirror score_calculator_text

abbrev pub s64_mirror : List Need
s64_mirror =
    need "missing overall weighted sum weights (0.4 + 0.3 + 0.2 + 0.1)"
      (λ text. has "0.4 *" text && has "0.3 *" text && has "0.2 *" text && has "0.1 *" text)
    ∷ []

unfoldable pub run_s64_check : Option Text → List Failure
run_s64_check score_calculator_text = run_each raw s64_mirror score_calculator_text

abbrev pub s72_mirror : List Need
s72_mirror =
    need "missing the 4 unit tests (integration, loss, latency, jitter)"
      (λ text. not (ltb (count (codes "test(") text) 4))
    ∷ []

unfoldable pub run_s72_check : Option Text → List Failure
run_s72_check score_calculator_test_text = run_each raw s72_mirror score_calculator_test_text
