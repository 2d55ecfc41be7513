-- ===== src/SelfTest/Capture.antt =====
-- The copies of tools/audit-self-test.py about the capture and the DNS of OpenE2eeVpnService.kt:
-- S87, S92, S93, S95, S96, S97, S98, S136.
use e2ee_app.Audit.Strip.{strip_plain, strip_line_ends}
use e2ee_app.Base.{not, Option, ltb, ◌||◌, ◌==◌, List, [], ◌∷◌}
use e2ee_app.Needs.{Need, has, need, final, raw}
use e2ee_app.Py.Re.{seq, literal, space, plus, spaced, occurs}
use e2ee_app.Py.Text.{Text, codes, count, find, find_behind}
use e2ee_app.SelfTest.{Failure, run_each}

abbrev pub s95_mirror : List Need
s95_mirror =
    need "S95 fail (ring.clear() appears"
      (λ code. not (ltb (count (codes "synchronized(ringLock) { ring.clear() }") code) 2))
    ∷ need "S95 fail (packetsObserved.set(0) appears"
        (λ code. not (ltb (count (codes "packetsObserved.set(0)") code) 3))
    ∷ []

unfoldable pub run_s95_check : Option Text → List Failure
run_s95_check opene2ee_vpn_service_text =
    run_each strip_line_ends s95_mirror opene2ee_vpn_service_text

abbrev pub s96_mirror : List Need
s96_mirror =
    need "S96 fail (missing Log.d breadcrumb token `DNS:"
      (has "DNS: checkPrivateDnsAndBindToVpn: ENTRY")
    ∷ need "S96 fail (missing Log.d breadcrumb token `isPrivateDnsActive=` for"
        (has "isPrivateDnsActive=")
    ∷ need "S96 fail (missing Log.d breadcrumb token"
        (has "ConnectivityManager.requestNetwork(TRANSPORT_VPN) start")
    ∷ need "S96 fail (missing Log.d breadcrumb token `NetworkCallback.onAvailable`"
        (has "NetworkCallback.onAvailable")
    ∷ need "S96 fail (missing Log.d breadcrumb token" (has "NetworkCallback.onUnavailable")
    ∷ need "S96 fail (missing Log.d breadcrumb token `bindProcessToNetwork(vpn)"
        (has "bindProcessToNetwork(vpn) result=")
    ∷ []

unfoldable pub run_s96_check : Option Text → List Failure
run_s96_check opene2ee_vpn_service_text =
    run_each strip_line_ends s96_mirror opene2ee_vpn_service_text

abbrev pub s97_mirror : List Need
s97_mirror =
    need "S97 fail (missing 5s fallback token `callbackFired` for a.callbackFired"
      (has "callbackFired")
    ∷ need "S97 fail (missing 5s fallback token `Handler(Looper.getMainLooper())`"
        (has "Handler(Looper.getMainLooper())")
    ∷ need "S97 fail (missing 5s fallback token `postDelayed(` for c.postDelayed"
        (has "postDelayed(")
    ∷ need "S97 fail (missing 5s fallback token `NetworkCallback TIMEOUT` for"
        (has "NetworkCallback TIMEOUT")
    ∷ need "S97 fail (missing 5s fallback token `FALLBACK"
        (has "FALLBACK bindProcessToNetwork(activeNetwork)")
    ∷ need "S97 fail (missing 5s fallback token"
        (has "hasTransport(NetworkCapabilities.TRANSPORT_VPN)")
    ∷ need "S97 fail (missing 5s fallback token `Magisk DenyList` for g.Magisk"
        (has "Magisk DenyList")
    ∷ need "S97 fail (missing 5s fallback token `removeCallbacks(fallbackRunnable)`"
        (has "removeCallbacks(fallbackRunnable)")
    ∷ []

unfoldable pub run_s97_check : Option Text → List Failure
run_s97_check opene2ee_vpn_service_text =
    run_each strip_line_ends s97_mirror opene2ee_vpn_service_text

abbrev pub s98_mirror : List Need
s98_mirror =
    need "S98 fail (missing `fallbackAttemptCount` declaration for 5s retry)"
      (has "fallbackAttemptCount")
    ∷ need "S98 fail (missing `attempt 1/2` retry breadcrumb)" (has "attempt 1/2")
    ∷ need "S98 fail (missing `lateinit var fallbackRunnable` for self-reference"
        (has "lateinit var fallbackRunnable")
    ∷ final "S98 fail (call site `checkPrivateDnsAndBindToVpn()` not found)"
        (λ text. not (find (codes "checkPrivateDnsAndBindToVpn()\n") text == 0))
    ∷ final "S98 fail (`builder.establish()` not found AFTER call site)" (λ text. not (
        find_behind (codes "builder.establish()")
          (find (codes "checkPrivateDnsAndBindToVpn()\n") text) text
        == 0))
    ∷ need "S98 fail (call site at line" (λ text. not (
        ltb
          (find_behind (codes "builder.establish()")
            (find (codes "checkPrivateDnsAndBindToVpn()\n") text) text)
          (find (codes "checkPrivateDnsAndBindToVpn()\n") text)))
    ∷ []

unfoldable pub run_s98_check : Option Text → List Failure
run_s98_check opene2ee_vpn_service_text = run_each raw s98_mirror opene2ee_vpn_service_text

abbrev pub s136_mirror : List Need
s136_mirror =
    need "missing `class OpenE2eeVpnService : VpnService()...` declaration" (λ text.
      has "class OpenE2eeVpnService : VpnService(), Runnable" text
      || has "class OpenE2eeVpnService :" text)
    ∷ need "missing `var activeInstance: OpenE2eeVpnService?` companion field"
        (has "var activeInstance: OpenE2eeVpnService?")
    ∷ need "missing `private fun runVpnLoop` declaration" (has "private fun runVpnLoop")
    ∷ need "missing `const val METHOD_CHANNEL = \"opene2ee/vpn\"` literal"
        (has "const val METHOD_CHANNEL = \"opene2ee/vpn\"")
    ∷ need "missing `private fun establishVpn` declaration" (has "private fun establishVpn")
    ∷ []

unfoldable pub run_s136_check : Option Text → List Failure
run_s136_check opene2ee_vpn_service_text = run_each raw s136_mirror opene2ee_vpn_service_text

abbrev pub s93_mirror : List Need
s93_mirror =
    need "S93 fail (passthroughCount AtomicLong field missing)" (
      occurs (
        seq (literal (codes "private")) (
          seq (plus space) (
            seq (literal (codes "val")) (
              seq (plus space)
                (spaced ("passthroughCount" ∷ "=" ∷ "AtomicLong" ∷ "(" ∷ "0" ∷ ")" ∷ [])))))))
    ∷ need "S93 fail (passthroughCount.set(0) reset missing)" (has "passthroughCount.set(0)")
    ∷ need "S93 fail (pfd.fileDescriptor.valid check missing)" (has "pfd.fileDescriptor.valid")
    ∷ need "S93 fail (passthroughCount.incrementAndGet missing)"
        (has "passthroughCount.incrementAndGet")
    ∷ need "S93 fail (catch(Throwable) on write block missing)"
        (occurs (spaced ("catch" ∷ "(" ∷ "t" ∷ ":" ∷ "Throwable" ∷ ")" ∷ [])))
    ∷ need "S93 fail (passthroughGap in breadcrumb missing)" (has "passthroughGap")
    ∷ []

unfoldable pub run_s93_check : Option Text → List Failure
run_s93_check opene2ee_vpn_service_text = run_each raw s93_mirror opene2ee_vpn_service_text

abbrev pub s92_mirror : List Need
s92_mirror =
    need "S92 fail (COUNTDOWN_TOTAL_MS constant missing)" (has "COUNTDOWN_TOTAL_MS")
    ∷ need "S92 fail (setUsesChronometer(true) missing)" (has "setUsesChronometer(true)")
    ∷ need "S92 fail (setWhen( call missing)" (has "setWhen(")
    ∷ need "S92 fail (scheduleCountdownAutoStop method missing)" (has "scheduleCountdownAutoStop")
    ∷ need "S92 fail (mainHandler.postDelayed missing)" (has "mainHandler.postDelayed")
    ∷ need "S92 fail (stopCapture(graceful=true) in Runnable missing)"
        (has "stopCapture(graceful = true)")
    ∷ need "S92 fail (countdownAutoStopRunnable cancel missing)" (has "countdownAutoStopRunnable")
    ∷ []

unfoldable pub run_s92_check : Option Text → List Failure
run_s92_check opene2ee_vpn_service_text = run_each raw s92_mirror opene2ee_vpn_service_text

abbrev pub s87_mirror : List Need
s87_mirror =
    need "S87 fail (TUN_MTU=1400 missing)" (occurs (spaced ("TUN_MTU" ∷ "=" ∷ "1400" ∷ [])))
    ∷ need "S87 fail (TUN_MTU=1500 anti-pattern)"
        (λ code. not (occurs (spaced ("TUN_MTU" ∷ "=" ∷ "1500" ∷ [])) code))
    ∷ need "S87 fail (addDnsServer missing)" (λ code.
      has "addDnsServer(PRIMARY_DNS" code
      || has "addDnsServer(1.1.1.1" code
      || has "addDnsServer(8.8.8.8" code)
    ∷ need "S87 fail (ipFragmentCount field missing)" (has "ipFragmentCount")
    ∷ need "S87 fail (per-1000-packet fragment log missing)"
        (λ code. has "fragmentRatePct" code || has "fragmentCount=" code)
    ∷ []

unfoldable pub run_s87_check : Option Text → List Failure
run_s87_check opene2ee_vpn_service_text = run_each strip_plain s87_mirror opene2ee_vpn_service_text
