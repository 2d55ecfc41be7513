-- ===== src/SelfTest/Backend.antt =====
-- The copies of tools/audit-self-test.py about the backend:
-- S70, S71.
use e2ee_app.Base.{Option, List, [], ◌∷◌}
use e2ee_app.Needs.{Need, has, need, needle, raw}
use e2ee_app.Py.Text.{Text}
use e2ee_app.SelfTest.{Failure, run_each, run_joined}

abbrev pub s70_mirror : List Need
s70_mirror =
    need "missing `r.Post(\"/sessions/{id}/close\"` route registration"
      (has "r.Post(\"/sessions/{id}/close\"")
    ∷ []

unfoldable pub run_s70_check : Option Text → List Failure
run_s70_check router_text = run_each raw s70_mirror router_text

abbrev pub s71_mirror : List Need
s71_mirror =
    need "summary_stats key" (has "summary_stats")
    ∷ needle "total_packets"
    ∷ needle "encrypted_packets"
    ∷ needle "packet_loss_pct"
    ∷ needle "mean_latency_ms"
    ∷ needle "jitter_ms"
    ∷ needle "encryption_integrity_pct"
    ∷ []

unfoldable pub run_s71_check : Option Text → List Failure
run_s71_check sessions_go_text = run_joined raw s71_mirror sessions_go_text
