-- ===== src/Audit/App/Score.antt =====
-- The checks of tools/workflow-yaml-audit.py about the score calculator and its tests:
-- S62, S63, S64, S72.
use e2ee_app.Audit.App.{score_calculator_dart, score_calculator_test_dart}
use e2ee_app.Audit.Needs.{check_joined, check_each}
use e2ee_app.Audit.Repo.{Repo, Finding}
use e2ee_app.Base.{not, ltb, ◌&&◌, List, [], ◌∷◌}
use e2ee_app.Needs.{Need, has, need, needle, raw}
use e2ee_app.Py.Text.{codes, count}

abbrev pub s62_needs : List Need
s62_needs =
    needle "class SessionScoreCalculator"
    ∷ need "static SessionScore compute method" (has "static SessionScore compute")
    ∷ []

unfoldable pub check_score_calculator_compute_v17 : Repo → List Finding
check_score_calculator_compute_v17 repo =
    check_joined raw score_calculator_dart s62_needs (repo.file score_calculator_dart)

abbrev pub s63_needs : List Need
s63_needs =
    need "encryptionIntegrityPct metric" (has "encryptionIntegrityPct")
    ∷ need "packetLossPct metric" (has "packetLossPct")
    ∷ need "meanLatencyMs metric" (has "meanLatencyMs")
    ∷ need "jitterMs metric" (has "jitterMs")
    ∷ []

unfoldable pub check_score_calculator_four_metrics_v17 : Repo → List Finding
check_score_calculator_four_metrics_v17 repo =
    check_joined raw score_calculator_dart s63_needs (repo.file score_calculator_dart)

abbrev pub s64_needs : List Need
s64_needs =
    need "missing overall weighted sum weights (0.4 + 0.3 + 0.2 + 0.1)"
      (λ text. has "0.4 *" text && has "0.3 *" text && has "0.2 *" text && has "0.1 *" text)
    ∷ []

unfoldable pub check_score_calculator_overall_weighted_sum_v17 : Repo → List Finding
check_score_calculator_overall_weighted_sum_v17 repo =
    check_each raw score_calculator_dart s64_needs (repo.file score_calculator_dart)

abbrev pub s72_needs : List Need
s72_needs =
    need "missing the 4 unit tests (integration, loss, latency, jitter)"
      (λ text. not (ltb (count (codes "test(") text) 4))
    ∷ []

unfoldable pub check_score_calculator_unit_tests_v17 : Repo → List Finding
check_score_calculator_unit_tests_v17 repo =
    check_each raw score_calculator_test_dart s72_needs (repo.file score_calculator_test_dart)
