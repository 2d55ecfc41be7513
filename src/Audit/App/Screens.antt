-- ===== src/Audit/App/Screens.antt =====
-- The checks of tools/workflow-yaml-audit.py about the screens of the mobile app:
-- S27, S29, S48, S51, S60, S61, S69, S89.
use e2ee_app.Audit.App.{active_pool_screen_dart, skorlar_screen_dart}
use e2ee_app.Audit.Needs.{check_joined, check_each}
use e2ee_app.Audit.Repo.{Repo, Finding}
use e2ee_app.Base.{not, ◌||◌, List, [], ◌∷◌}
use e2ee_app.Needs.{Need, has, need, needle, raw}
use e2ee_app.Py.Re.{spaced, occurs}

abbrev pub s27_needs : List Need
s27_needs = need "missing the literal `LineChart`" (has "LineChart") ∷ []

unfoldable pub check_active_pool_linechart_literal_present : Repo → List Finding
check_active_pool_linechart_literal_present repo =
    check_each raw active_pool_screen_dart s27_needs (repo.file active_pool_screen_dart)

abbrev pub s89_needs : List Need
s89_needs =
    need "missing _packetSub.cancel() in _oturumuBitir"
      (λ text. has "_packetSub?.cancel()" text || has "_packetSub.cancel()" text)
    ∷ need "missing _stateSub.cancel() in _oturumuBitir"
        (λ text. has "_stateSub?.cancel()" text || has "_stateSub.cancel()" text)
    ∷ need "missing `_toplamPaket = 0` in _oturumuBitir" (has "_toplamPaket = 0")
    ∷ need "missing `_vpnState = VpnLifecycleState.idle` in _oturumuBitir"
        (has "_vpnState = VpnLifecycleState.idle")
    ∷ need "missing `setState` in _oturumuBitir"
        (occurs (spaced ("setState" ∷ "(" ∷ "(" ∷ ")" ∷ "{" ∷ [])))
    ∷ need "missing `_disconnectInProgress = true` at the entry of _oturumuBitir"
        (has "_disconnectInProgress = true")
    ∷ need "missing `_disconnectInProgress = false` at the end of _oturumuBitir"
        (has "_disconnectInProgress = false")
    ∷ need "missing `context.go('/home/gorevler')` in _oturumuBitir" (λ text.
      has "context.go('/home/gorevler')" text || has "context.go(\"/home/gorevler\")" text)
    ∷ []

unfoldable pub check_oturumu_bitir_full_state_reset_v33 : Repo → List Finding
check_oturumu_bitir_full_state_reset_v33 repo =
    check_each raw active_pool_screen_dart s89_needs (repo.file active_pool_screen_dart)

abbrev pub s29_needs : List Need
s29_needs =
    need "missing both `HapticFeedback` and `SystemSound` literals"
      (λ text. has "HapticFeedback" text || has "SystemSound" text)
    ∷ []

unfoldable pub check_active_pool_haptic_feedback_literal_present : Repo → List Finding
check_active_pool_haptic_feedback_literal_present repo =
    check_each raw active_pool_screen_dart s29_needs (repo.file active_pool_screen_dart)

abbrev pub s48_needs : List Need
s48_needs = need "missing `packetStream.listen`" (has "packetStream.listen") ∷ []

unfoldable pub check_active_pool_packet_stream_listen_v15 : Repo → List Finding
check_active_pool_packet_stream_listen_v15 repo =
    check_each raw active_pool_screen_dart s48_needs (repo.file active_pool_screen_dart)

abbrev pub s51_needs : List Need
s51_needs =
    need "still has the 10.1A `i < 30` + `Timer.periodic` fixed-loop chart driver"
      (λ text. not (has "< 30" text) || not (has "Timer.periodic" text))
    ∷ need "missing `packetStream` subscription" (has "packetStream")
    ∷ []

unfoldable pub check_active_pool_no_30_call_loop_v15 : Repo → List Finding
check_active_pool_no_30_call_loop_v15 repo =
    check_each raw active_pool_screen_dart s51_needs (repo.file active_pool_screen_dart)

abbrev pub s61_needs : List Need
s61_needs =
    needle "Future<List<SessionScore>>"
    ∷ need "ConsumerStatefulWidget / ConsumerState"
        (λ text. has "ConsumerStatefulWidget" text || has "ConsumerState<" text)
    ∷ need "fetchScores method" (has "fetchScores")
    ∷ []

unfoldable pub check_skorlar_screen_fetch_scores_v17 : Repo → List Finding
check_skorlar_screen_fetch_scores_v17 repo =
    check_joined raw skorlar_screen_dart s61_needs (repo.file skorlar_screen_dart)

abbrev pub s69_needs : List Need
s69_needs =
    need "SessionScoreCard widget" (has "SessionScoreCard")
    ∷ need "overallScore gauge (disc)"
        (λ text. has "_OverallScoreDisc" text || has "overallScore" text)
    ∷ []

unfoldable pub check_skorlar_card_overall_gauge_v17 : Repo → List Finding
check_skorlar_card_overall_gauge_v17 repo =
    check_joined raw skorlar_screen_dart s69_needs (repo.file skorlar_screen_dart)

abbrev pub s60_needs : List Need
s60_needs =
    need "Negotiating label (müzakere)" (has "müzakere")
    ∷ need "Connected label (bağlandı)" (has "bağlandı")
    ∷ need "Failed label (hata)" (has "hata")
    ∷ []

unfoldable pub check_active_pool_webrtc_status_indicator_v16 : Repo → List Finding
check_active_pool_webrtc_status_indicator_v16 repo =
    check_joined raw active_pool_screen_dart s60_needs (repo.file active_pool_screen_dart)
