-- ===== src/SelfTest/Session.antt =====
-- The copies of tools/audit-self-test.py about the session and its WebRTC connection:
-- S54, S55, S56, S57, S59, S65.
use e2ee_app.Base.{Option, ◌&&◌, ◌||◌, List, [], ◌∷◌}
use e2ee_app.Needs.{Need, has, need, final, raw}
use e2ee_app.Py.Text.{Text}
use e2ee_app.SelfTest.{Failure, run_each, run_joined}

abbrev pub s54_mirror : List Need
s54_mirror =
    need "flutter_webrtc import" (has "import 'package:flutter_webrtc/flutter_webrtc.dart'")
    ∷ need "RTCPeerConnection class reference" (has "RTCPeerConnection")
    ∷ need "createPeerConnection call site" (has "createPeerConnection")
    ∷ []

unfoldable pub run_s54_check : Option Text → List Failure
run_s54_check webrtc_service_text = run_joined raw s54_mirror webrtc_service_text

abbrev pub s55_mirror : List Need
s55_mirror =
    need "onIceCandidate callback" (has "onIceCandidate")
    ∷ need "candidate string literal in callback"
        (λ text. has "'candidate'" text || has "\"candidate\"" text)
    ∷ need "sdpMid field" (has "sdpMid")
    ∷ []

unfoldable pub run_s55_check : Option Text → List Failure
run_s55_check webrtc_service_text = run_joined raw s55_mirror webrtc_service_text

abbrev pub s56_mirror : List Need
s56_mirror =
    need "startSession method" (has "startSession")
    ∷ need "authHeaders() call (JWT)" (has "authHeaders")
    ∷ need "/api/v1/sessions endpoint" (has "/api/v1/sessions")
    ∷ []

unfoldable pub run_s56_check : Option Text → List Failure
run_s56_check orchestrator_text = run_joined raw s56_mirror orchestrator_text

abbrev pub s57_mirror : List Need
s57_mirror =
    final "missing 30s long-poll timeout literal"
      (λ text. has "Duration(seconds: 30)" text || has "_pollTimeout" text)
    ∷ need "missing `.get(` call site for the long-poll GET" (has ".get(")
    ∷ need "missing `pollForOffer` or `pollForAnswer` method (the long-poll entry"
        (λ text. has "pollForOffer" text || has "pollForAnswer" text)
    ∷ []

unfoldable pub run_s57_check : Option Text → List Failure
run_s57_check orchestrator_text = run_each raw s57_mirror orchestrator_text

abbrev pub s59_mirror : List Need
s59_mirror =
    need "onTrack callback" (has "onTrack") ∷ need "onTrack stream getter" (has "get onTrack") ∷ []

unfoldable pub run_s59_check : Option Text → List Failure
run_s59_check webrtc_service_text = run_joined raw s59_mirror webrtc_service_text

abbrev pub s65_mirror : List Need
s65_mirror =
    need "closeSession method" (has "closeSession")
    ∷ need "close endpoint path" (λ text. has "/api/v1/sessions/" text && has "close" text)
    ∷ []

unfoldable pub run_s65_check : Option Text → List Failure
run_s65_check orchestrator_text = run_joined raw s65_mirror orchestrator_text
