-- ===== src/Audit/App/Backend.antt =====
-- The checks of tools/workflow-yaml-audit.py about the backend:
-- S58, S70, S71.
use e2ee_app.Audit.App.{router_go, sessions_go}
use e2ee_app.Audit.Needs.{check_joined, check_each}
use e2ee_app.Audit.Repo.{Repo, Finding}
use e2ee_app.Base.{List, [], ◌∷◌}
use e2ee_app.Needs.{Need, has, need, needle, raw}

abbrev pub s70_needs : List Need
s70_needs =
    need "missing `r.Post(\"/sessions/{id}/close\"` route registration"
      (has "r.Post(\"/sessions/{id}/close\"")
    ∷ []

unfoldable pub check_backend_sessions_close_handler_v17 : Repo → List Finding
check_backend_sessions_close_handler_v17 repo =
    check_each raw router_go s70_needs (repo.file router_go)

abbrev pub s71_needs : List Need
s71_needs =
    need "summary_stats key" (has "summary_stats")
    ∷ needle "total_packets"
    ∷ needle "encrypted_packets"
    ∷ needle "packet_loss_pct"
    ∷ needle "mean_latency_ms"
    ∷ needle "jitter_ms"
    ∷ needle "encryption_integrity_pct"
    ∷ []

unfoldable pub check_backend_summary_stats_shape_v17 : Repo → List Finding
check_backend_summary_stats_shape_v17 repo =
    check_joined raw sessions_go s71_needs (repo.file sessions_go)

abbrev pub s58_needs : List Need
s58_needs =
    need "r.Get(\"/webrtc/offer\", ...)" (has "r.Get(\"/webrtc/offer\"")
    ∷ need "r.Get(\"/webrtc/answer\", ...)" (has "r.Get(\"/webrtc/answer\"")
    ∷ []

unfoldable pub check_backend_webrtc_long_poll_handlers_v16 : Repo → List Finding
check_backend_webrtc_long_poll_handlers_v16 repo =
    check_joined raw router_go s58_needs (repo.file router_go)
