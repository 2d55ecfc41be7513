-- ===== src/Audit/App/Session.antt =====
-- The checks of tools/workflow-yaml-audit.py about the session and its WebRTC connection:
-- S54, S55, S56, S57, S59, S65.
use e2ee_app.Audit.App.{session_orchestrator_dart, webrtc_service_dart}
use e2ee_app.Audit.Needs.{check_joined, check_each}
use e2ee_app.Audit.Repo.{Repo, Finding}
use e2ee_app.Base.{◌&&◌, ◌||◌, List, [], ◌∷◌}
use e2ee_app.Needs.{Need, has, need, final, raw}

abbrev pub s65_needs : List Need
s65_needs =
    need "closeSession method" (has "closeSession")
    ∷ need "close endpoint path"
        (λ text. has "/api/v1/sessions/" text && has "close" text && has ".post(" text)
    ∷ []

unfoldable pub check_session_orchestrator_close_session_v17 : Repo → List Finding
check_session_orchestrator_close_session_v17 repo =
    check_joined raw session_orchestrator_dart s65_needs (repo.file session_orchestrator_dart)

abbrev pub s54_needs : List Need
s54_needs =
    need "flutter_webrtc import" (has "import 'package:flutter_webrtc/flutter_webrtc.dart'")
    ∷ need "RTCPeerConnection reference" (has "RTCPeerConnection")
    ∷ need "createPeerConnection call site" (has "createPeerConnection")
    ∷ []

unfoldable pub check_webrtc_service_rtc_peer_connection_v16 : Repo → List Finding
check_webrtc_service_rtc_peer_connection_v16 repo =
    check_joined raw webrtc_service_dart s54_needs (repo.file webrtc_service_dart)

abbrev pub s55_needs : List Need
s55_needs =
    need "onIceCandidate callback" (has "onIceCandidate")
    ∷ need "candidate string literal" (λ text. has "'candidate'" text || has "\"candidate\"" text)
    ∷ need "sdpMid field" (has "sdpMid")
    ∷ []

unfoldable pub check_webrtc_service_on_ice_candidate_v16 : Repo → List Finding
check_webrtc_service_on_ice_candidate_v16 repo =
    check_joined raw webrtc_service_dart s55_needs (repo.file webrtc_service_dart)

abbrev pub s56_needs : List Need
s56_needs =
    need "startSession method" (has "startSession")
    ∷ need "authHeaders() call (JWT)" (has "authHeaders")
    ∷ need "/api/v1/sessions endpoint" (has "/api/v1/sessions")
    ∷ []

unfoldable pub check_session_orchestrator_start_session_v16 : Repo → List Finding
check_session_orchestrator_start_session_v16 repo =
    check_joined raw session_orchestrator_dart s56_needs (repo.file session_orchestrator_dart)

abbrev pub s57_needs : List Need
s57_needs =
    final "missing 30s long-poll timeout literal"
      (λ text. has "Duration(seconds: 30)" text || has "_pollTimeout" text)
    ∷ need "missing `.get(` call site for long-poll GET" (has ".get(")
    ∷ need "missing `pollForOffer` or `pollForAnswer` method"
        (λ text. has "pollForOffer" text || has "pollForAnswer" text)
    ∷ []

unfoldable pub check_session_orchestrator_long_poll_v16 : Repo → List Finding
check_session_orchestrator_long_poll_v16 repo =
    check_each raw session_orchestrator_dart s57_needs (repo.file session_orchestrator_dart)

abbrev pub s59_needs : List Need
s59_needs =
    need "onTrack callback" (has "onTrack") ∷ need "onTrack stream getter" (has "get onTrack") ∷ []

unfoldable pub check_webrtc_service_on_track_v16 : Repo → List Finding
check_webrtc_service_on_track_v16 repo =
    check_joined raw webrtc_service_dart s59_needs (repo.file webrtc_service_dart)
