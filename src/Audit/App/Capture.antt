-- ===== src/Audit/App/Capture.antt =====
-- The checks of tools/workflow-yaml-audit.py about the capture and the DNS of OpenE2eeVpnService.kt:
-- S87, S92, S93, S95, S96, S97, S98.
use e2ee_app.Audit.App.{vpn_service_kt}
use e2ee_app.Audit.Needs.{check_each}
use e2ee_app.Audit.Repo.{Repo, Finding}
use e2ee_app.Audit.Strip.{strip_plain, strip_line_ends}
use e2ee_app.Base.{not, ltb, ◌&&◌, ◌||◌, ◌==◌, List, [], ◌∷◌}
use e2ee_app.Needs.{Need, has, need, final, raw}
use e2ee_app.Py.Re.{seq, star, literal, space, word, plus, spaced, occurs}
use e2ee_app.Py.Text.{codes, count, find, find_behind}

abbrev pub s87_needs : List Need
s87_needs =
    need "missing `TUN_MTU = 1400`" (occurs (spaced ("TUN_MTU" ∷ "=" ∷ "1400" ∷ [])))
    ∷ need "contains the anti-pattern `TUN_MTU = 1500`"
        (λ code. not (occurs (spaced ("TUN_MTU" ∷ "=" ∷ "1500" ∷ [])) code))
    ∷ need "missing addDnsServer call" (λ code.
      has "addDnsServer(PRIMARY_DNS" code
      || has "addDnsServer(1.1.1.1" code
      || has "addDnsServer(8.8.8.8" code)
    ∷ need "missing `ipFragmentCount` field" (has "ipFragmentCount")
    ∷ need "missing per-1000-packet MTU+fragment log breadcrumb"
        (λ code. has "fragmentRatePct" code || has "fragmentCount=" code)
    ∷ []

unfoldable pub check_vpn_service_mtu_and_fragment_log_v31 : Repo → List Finding
check_vpn_service_mtu_and_fragment_log_v31 repo =
    check_each strip_plain vpn_service_kt s87_needs (repo.file vpn_service_kt)

abbrev pub s92_needs : List Need
s92_needs =
    need "missing `COUNTDOWN_TOTAL_MS` constant" (has "COUNTDOWN_TOTAL_MS")
    ∷ need "missing `setUsesChronometer(true)` in the notification builder"
        (has "setUsesChronometer(true)")
    ∷ need "missing `setWhen(` call" (has "setWhen(")
    ∷ need "missing `scheduleCountdownAutoStop()` method" (has "scheduleCountdownAutoStop")
    ∷ need "missing `mainHandler.postDelayed` call" (has "mainHandler.postDelayed")
    ∷ need "missing `stopCapture(graceful = true)` in the auto-stop Runnable"
        (has "stopCapture(graceful = true)")
    ∷ need "missing the `countdownAutoStopRunnable` cancel in `stopCapture`"
        (λ text. has "countdownAutoStopRunnable?.let" text || has "countdownAutoStopRunnable" text)
    ∷ []

unfoldable pub check_notification_chronometer_autostop_v35 : Repo → List Finding
check_notification_chronometer_autostop_v35 repo =
    check_each raw vpn_service_kt s92_needs (repo.file vpn_service_kt)

abbrev pub s93_needs : List Need
s93_needs =
    need "missing `private val passthroughCount = AtomicLong(0)` field" (
      occurs (
        seq (literal (codes "private")) (
          seq (plus space) (
            seq (literal (codes "val")) (
              seq (plus space)
                (spaced ("passthroughCount" ∷ "=" ∷ "AtomicLong" ∷ "(" ∷ "0" ∷ ")" ∷ [])))))))
    ∷ need "missing `passthroughCount.set(0)` reset in `startCapture`"
        (has "passthroughCount.set(0)")
    ∷ need "missing `pfd.fileDescriptor.valid()` check before the write"
        (has "pfd.fileDescriptor.valid")
    ∷ need "missing `passthroughCount.incrementAndGet()` call after the successful"
        (has "passthroughCount.incrementAndGet")
    ∷ need "missing `catch (t: Throwable)` for the write block"
        (occurs (spaced ("catch" ∷ "(" ∷ "t" ∷ ":" ∷ "Throwable" ∷ ")" ∷ [])))
    ∷ need "missing `catch (e: IOException)` for the write block" (
        occurs (
          seq (spaced ("catch" ∷ "(" ∷ [])) (
            seq (star space)
              (seq (plus word) (seq (star space) (spaced (":" ∷ "IOException" ∷ ")" ∷ [])))))))
    ∷ need "missing `passthroughCount` / `passthroughGap` in the per-1000-packet"
        (λ text. has "passthroughCount" text && has "passthroughGap" text)
    ∷ []

unfoldable pub check_vpn_service_passthrough_count_invariant_v36 : Repo → List Finding
check_vpn_service_passthrough_count_invariant_v36 repo =
    check_each raw vpn_service_kt s93_needs (repo.file vpn_service_kt)

abbrev pub s95_needs : List Need
s95_needs =
    need "`synchronized(ringLock) { ring.clear() }` literal appears"
      (λ code. not (ltb (count (codes "synchronized(ringLock) { ring.clear() }") code) 2))
    ∷ need "`packetsObserved.set(0)` literal appears"
        (λ code. not (ltb (count (codes "packetsObserved.set(0)") code) 3))
    ∷ []

unfoldable pub check_stop_capture_ring_clear_invariant_v38 : Repo → List Finding
check_stop_capture_ring_clear_invariant_v38 repo =
    check_each strip_line_ends vpn_service_kt s95_needs (repo.file vpn_service_kt)

abbrev pub s96_needs : List Need
s96_needs =
    need "missing Log.d breadcrumb token `DNS: checkPrivateDnsAndBindToVpn:"
      (has "DNS: checkPrivateDnsAndBindToVpn: ENTRY")
    ∷ need "missing Log.d breadcrumb token `isPrivateDnsActive=`" (has "isPrivateDnsActive=")
    ∷ need "missing Log.d breadcrumb token"
        (has "ConnectivityManager.requestNetwork(TRANSPORT_VPN) start")
    ∷ need "missing Log.d breadcrumb token `NetworkCallback.onAvailable`"
        (has "NetworkCallback.onAvailable")
    ∷ need "missing Log.d breadcrumb token `NetworkCallback.onUnavailable`"
        (has "NetworkCallback.onUnavailable")
    ∷ need "missing Log.d breadcrumb token `bindProcessToNetwork(vpn) result=`"
        (has "bindProcessToNetwork(vpn) result=")
    ∷ []

unfoldable pub check_check_private_dns_bind_5_logd_invariant_v39 : Repo → List Finding
check_check_private_dns_bind_5_logd_invariant_v39 repo =
    check_each strip_line_ends vpn_service_kt s96_needs (repo.file vpn_service_kt)

abbrev pub s97_needs : List Need
s97_needs =
    need "missing 5s fallback token `callbackFired` (a.callbackFired flag)" (has "callbackFired")
    ∷ need "missing 5s fallback token `Handler(Looper.getMainLooper())` (b.fallback"
        (has "Handler(Looper.getMainLooper())")
    ∷ need "missing 5s fallback token `postDelayed(` (c.postDelayed scheduling)"
        (has "postDelayed(")
    ∷ need "missing 5s fallback token `NetworkCallback TIMEOUT` (d.fallback timeout"
        (has "NetworkCallback TIMEOUT")
    ∷ need "missing 5s fallback token `FALLBACK"
        (has "FALLBACK bindProcessToNetwork(activeNetwork)")
    ∷ need "missing 5s fallback token" (has "hasTransport(NetworkCapabilities.TRANSPORT_VPN)")
    ∷ need "missing 5s fallback token `Magisk DenyList` (g.Magisk DenyList hint)"
        (has "Magisk DenyList")
    ∷ need "missing 5s fallback token `removeCallbacks(fallbackRunnable)`"
        (has "removeCallbacks(fallbackRunnable)")
    ∷ []

unfoldable pub check_check_private_dns_5s_fallback_invariant_v40 : Repo → List Finding
check_check_private_dns_5s_fallback_invariant_v40 repo =
    check_each strip_line_ends vpn_service_kt s97_needs (repo.file vpn_service_kt)

abbrev pub s98_needs : List Need
s98_needs =
    need "missing `fallbackAttemptCount` declaration" (has "fallbackAttemptCount")
    ∷ need "missing `attempt 1/2` retry breadcrumb" (has "attempt 1/2")
    ∷ need "missing `lateinit var fallbackRunnable` declaration"
        (has "lateinit var fallbackRunnable")
    ∷ final "call site `checkPrivateDnsAndBindToVpn()` not found"
        (λ text. not (find (codes "checkPrivateDnsAndBindToVpn()\n") text == 0))
    ∷ final "call site `builder.establish()` not found AFTER the" (λ text. not (
        find_behind (codes "builder.establish()")
          (find (codes "checkPrivateDnsAndBindToVpn()\n") text) text
        == 0))
    ∷ need "`checkPrivateDnsAndBindToVpn()` call site (line ..) is AFTER" (λ text. not (
        ltb
          (find_behind (codes "builder.establish()")
            (find (codes "checkPrivateDnsAndBindToVpn()\n") text) text)
          (find (codes "checkPrivateDnsAndBindToVpn()\n") text)))
    ∷ []

unfoldable pub check_check_private_dns_call_before_establish_invariant_v41 : Repo → List Finding
check_check_private_dns_call_before_establish_invariant_v41 repo =
    check_each raw vpn_service_kt s98_needs (repo.file vpn_service_kt)
