-- ===== src/SelfTest/Screens.antt =====
-- The copies of tools/audit-self-test.py about the screens of the mobile app:
-- S26, S27, S29, S34, S48, S51, S60, S61, S66, S67, S68, S69, S77, S89.
use e2ee_app.Base.{not, Option, ◌||◌, List, [], ◌∷◌}
use e2ee_app.Needs.{Need, has, need, raw}
use e2ee_app.Py.Re.{spaced, occurs}
use e2ee_app.Py.Text.{Text}
use e2ee_app.SelfTest.{Failure, run_each, run_joined}

abbrev pub s26_mirror : List Need
s26_mirror = need "S26 fail (literal missing)" (has "intent://send?text=") ∷ []

unfoldable pub run_s26_check : Option Text → List Failure
run_s26_check whatsapp_screen_text = run_each raw s26_mirror whatsapp_screen_text

abbrev pub s27_mirror : List Need
s27_mirror = need "S27 fail (literal missing)" (has "LineChart") ∷ []

unfoldable pub run_s27_check : Option Text → List Failure
run_s27_check active_pool_text = run_each raw s27_mirror active_pool_text

abbrev pub s89_mirror : List Need
s89_mirror =
    need "S89 fail (_packetSub.cancel missing)"
      (λ text. has "_packetSub?.cancel()" text || has "_packetSub.cancel()" text)
    ∷ need "S89 fail (_stateSub.cancel missing)"
        (λ text. has "_stateSub?.cancel()" text || has "_stateSub.cancel()" text)
    ∷ need "S89 fail (_toplamPaket=0 reset missing)" (has "_toplamPaket = 0")
    ∷ need "S89 fail (_vpnState idle reset missing)" (has "_vpnState = VpnLifecycleState.idle")
    ∷ need "S89 fail (setState missing)" (occurs (spaced ("setState" ∷ "(" ∷ "(" ∷ ")" ∷ "{" ∷ [])))
    ∷ need "S89 fail (disconnectInProgress=true guard missing)" (has "_disconnectInProgress = true")
    ∷ need "S89 fail (disconnectInProgress=false clear missing)"
        (has "_disconnectInProgress = false")
    ∷ need "S89 fail (context.go /home/gorevler missing)" (λ text.
      has "context.go('/home/gorevler')" text || has "context.go(\"/home/gorevler\")" text)
    ∷ []

unfoldable pub run_s89_check : Option Text → List Failure
run_s89_check active_pool_text = run_each raw s89_mirror active_pool_text

abbrev pub s29_mirror : List Need
s29_mirror =
    need "S29 fail (no haptic / system-sound literal)"
      (λ text. has "HapticFeedback" text || has "SystemSound" text)
    ∷ []

unfoldable pub run_s29_check : Option Text → List Failure
run_s29_check active_pool_text = run_each raw s29_mirror active_pool_text

abbrev pub s34_mirror : List Need
s34_mirror =
    need "S34 fail (literal missing)" (has "ScaffoldMessenger.of(context).showSnackBar") ∷ []

unfoldable pub run_s34_check : Option Text → List Failure
run_s34_check active_pool_text = run_each raw s34_mirror active_pool_text

abbrev pub s48_mirror : List Need
s48_mirror = need "S48 fail (packetStream.listen literal missing)" (has "packetStream.listen") ∷ []

unfoldable pub run_s48_check : Option Text → List Failure
run_s48_check active_pool_screen_text = run_each raw s48_mirror active_pool_screen_text

abbrev pub s51_mirror : List Need
s51_mirror =
    need "S51 fail (30-call fixed Timer.periodic loop still present)"
      (λ text. not (has "< 30" text) || not (has "Timer.periodic" text))
    ∷ need "S51 fail (continuous packetStream subscription missing)" (has "packetStream")
    ∷ []

unfoldable pub run_s51_check : Option Text → List Failure
run_s51_check active_pool_screen_text = run_each raw s51_mirror active_pool_screen_text

abbrev pub s60_mirror : List Need
s60_mirror =
    need "Negotiating label (müzakere)" (has "müzakere")
    ∷ need "Connected label (bağlandı)" (has "bağlandı")
    ∷ need "Failed label (hata)" (has "hata")
    ∷ []

unfoldable pub run_s60_check : Option Text → List Failure
run_s60_check active_pool_text = run_joined raw s60_mirror active_pool_text

abbrev pub s61_mirror : List Need
s61_mirror =
    need "Future<List<SessionScore>>"
      (λ text. has "Future<List<SessionScore>>" text || has "Future<List<SessionScore>>" text)
    ∷ need "fetchScores method" (has "fetchScores")
    ∷ need "ConsumerStatefulWidget / ConsumerState"
        (λ text. has "ConsumerStatefulWidget" text || has "ConsumerState<" text)
    ∷ []

unfoldable pub run_s61_check : Option Text → List Failure
run_s61_check skorlar_screen_text = run_joined raw s61_mirror skorlar_screen_text

abbrev pub s66_mirror : List Need
s66_mirror = need "missing `Oturumu Bitir` Turkish label" (has "Oturumu Bitir") ∷ []

unfoldable pub run_s66_check : Option Text → List Failure
run_s66_check active_pool_text = run_each raw s66_mirror active_pool_text

abbrev pub s67_mirror : List Need
s67_mirror =
    need "closeSession call site" (has "closeSession")
    ∷ need "/home/skorlar navigation" (has "/home/skorlar")
    ∷ []

unfoldable pub run_s67_check : Option Text → List Failure
run_s67_check active_pool_text = run_joined raw s67_mirror active_pool_text

abbrev pub s68_mirror : List Need
s68_mirror =
    need "missing `Henüz tamamlanmış oturum yok` empty-state string"
      (has "Henüz tamamlanmış oturum yok")
    ∷ []

unfoldable pub run_s68_check : Option Text → List Failure
run_s68_check skorlar_screen_text = run_each raw s68_mirror skorlar_screen_text

abbrev pub s69_mirror : List Need
s69_mirror =
    need "SessionScoreCard widget" (has "SessionScoreCard")
    ∷ need "overallScore gauge (disc)"
        (λ text. has "_OverallScoreDisc" text || has "overallScore" text)
    ∷ []

unfoldable pub run_s69_check : Option Text → List Failure
run_s69_check skorlar_screen_text = run_joined raw s69_mirror skorlar_screen_text

abbrev pub s77_mirror : List Need
s77_mirror =
    need "does NOT extend `ConsumerStatefulWidget`" (has "ConsumerStatefulWidget")
    ∷ need "missing `stateStream.listen` subscription"
        (λ text. has "stateStream.listen" text || has ".stateStream.listen" text)
    ∷ need "no `setState(` call found" (has "setState(")
    ∷ need "does NOT reference `VpnService.instance` (or `vpnServiceProvider`)"
        (λ text. has "VpnService.instance" text || has "vpnServiceProvider" text)
    ∷ []

unfoldable pub run_s77_check : Option Text → List Failure
run_s77_check active_pool_screen_text = run_each raw s77_mirror active_pool_screen_text
