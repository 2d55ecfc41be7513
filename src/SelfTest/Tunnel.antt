-- ===== src/SelfTest/Tunnel.antt =====
-- The copies of tools/audit-self-test.py about OpenE2eeVpnService.kt:
-- S45, S50, S75, S78, S79, S80.
use e2ee_app.Audit.Strip.{strip_plain}
use e2ee_app.Base.{not, Option, ltb, ◌&&◌, ◌||◌, List, [], ◌∷◌}
use e2ee_app.Needs.{Need, has, need, raw}
use e2ee_app.Py.Re.{spaced, occurs}
use e2ee_app.Py.Text.{Text, codes, count}
use e2ee_app.SelfTest.{Failure, run_each}

abbrev pub s45_mirror : List Need
s45_mirror =
    need "S45 fail (\"onPacketsSampled\" literal missing)" (has "\"onPacketsSampled\"") ∷ []

unfoldable pub run_s45_check : Option Text → List Failure
run_s45_check opene2ee_vpn_service_text = run_each raw s45_mirror opene2ee_vpn_service_text

abbrev pub s50_mirror : List Need
s50_mirror =
    need "S50 fail (foreground notification title \"OpenE2EE Şifreleme Doğrulama\""
      (has "OpenE2EE Şifreleme Doğrulama")
    ∷ []

unfoldable pub run_s50_check : Option Text → List Failure
run_s50_check opene2ee_vpn_service_text = run_each raw s50_mirror opene2ee_vpn_service_text

abbrev pub s75_mirror : List Need
s75_mirror = need "only" (λ code. not (ltb (count (codes "Log.d(TAG,") code) 5)) ∷ []

unfoldable pub run_s75_check : Option Text → List Failure
run_s75_check opene2ee_vpn_service_text = run_each strip_plain s75_mirror opene2ee_vpn_service_text

abbrev pub s78_mirror : List Need
s78_mirror =
    need "missing `startCapture: SAMPLING started` literal" (has "startCapture: SAMPLING started")
    ∷ need "missing `stopCapture: called` literal" (has "stopCapture: called")
    ∷ need "missing `onRevoke:` literal" (has "onRevoke:")
    ∷ need "missing `synchronized(stateLock)` TOCTOU guard"
        (λ code. has "synchronized(" code && has "stateLock" code)
    ∷ []

unfoldable pub run_s78_check : Option Text → List Failure
run_s78_check opene2ee_vpn_service_text = run_each strip_plain s78_mirror opene2ee_vpn_service_text

abbrev pub s79_mirror : List Need
s79_mirror =
    need "missing `.addAddress(TUN_ADDRESS` literal" (has ".addAddress(TUN_ADDRESS")
    ∷ need "missing the default-route addRoute (`.addRoute(\"0.0.0.0\", 0)` literal" (λ code.
      occurs (spaced (".addRoute(" ∷ "\"0.0.0.0\"" ∷ "," ∷ "0" ∷ ")" ∷ [])) code
      || (has "CAPTURED_ROUTE_ADDRESS" code && has "CAPTURED_ROUTE_PREFIX" code))
    ∷ need "contains the anti-pattern `.addRoute(TUN_ADDRESS, ...)`"
        (λ code. not (occurs (spaced (".addRoute(" ∷ "TUN_ADDRESS" ∷ [])) code))
    ∷ []

unfoldable pub run_s79_check : Option Text → List Failure
run_s79_check opene2ee_vpn_service_text = run_each strip_plain s79_mirror opene2ee_vpn_service_text

abbrev pub s80_mirror : List Need
s80_mirror =
    need "missing the TUN passthrough write call (`output.write(buf, 0, n)`)"
      (λ code. has "output.write(buf" code || has "tunOutput.write(" code || has "tun.write(" code)
    ∷ need "missing the TUN input read call (`input.read(buf)`)"
        (λ code. has "input.read(buf" code || has "tunInput.read(" code || has "tun.read(" code)
    ∷ need "contains the anti-pattern `protect(Socket())`"
        (λ code. not (occurs (spaced ("protect" ∷ "(" ∷ "Socket" ∷ "(" ∷ ")" ∷ [])) code))
    ∷ []

unfoldable pub run_s80_check : Option Text → List Failure
run_s80_check opene2ee_vpn_service_text = run_each strip_plain s80_mirror opene2ee_vpn_service_text
