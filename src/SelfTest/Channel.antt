-- ===== src/SelfTest/Channel.antt =====
-- The copies of tools/audit-self-test.py about MainActivity.kt:
-- S43, S46, S73.
use e2ee_app.Audit.Strip.{strip_plain}
use e2ee_app.Base.{not, Option, ◌||◌, List, [], ◌∷◌}
use e2ee_app.Needs.{Need, has, need, final, raw}
use e2ee_app.Py.Re.{spaced, occurs}
use e2ee_app.Py.Text.{Text}
use e2ee_app.SelfTest.{Failure, run_each}

abbrev pub s43_mirror : List Need
s43_mirror =
    final "S43 fail (when (call.method) block missing)"
      (occurs (spaced ("when" ∷ "(" ∷ "call.method" ∷ ")" ∷ [])))
    ∷ need "S43 fail (\"getSampledPackets\" case missing)"
        (λ code. has "\"getSampledPackets\"" code || has "'getSampledPackets'" code)
    ∷ []

unfoldable pub run_s43_check : Option Text → List Failure
run_s43_check main_activity_text = run_each strip_plain s43_mirror main_activity_text

abbrev pub s46_mirror : List Need
s46_mirror =
    need "S46 fail (OpenE2eeVpnService.snapshot() call missing)"
      (has "OpenE2eeVpnService.snapshot()")
    ∷ need "S46 fail (mock packet mapOf(...) literal still present)" (λ text.
      not (has "\"srcIpMasked\"" text)
      || not (has "\"version\"" text)
      || not (has "\"protocol\"" text))
    ∷ []

unfoldable pub run_s46_check : Option Text → List Failure
run_s46_check main_activity_text = run_each raw s46_mirror main_activity_text

abbrev pub s73_mirror : List Need
s73_mirror =
    need "missing `MethodChannel(` constructor call" (has "MethodChannel(")
    ∷ need "missing the `opene2ee/vpn` channel name (expected either" (λ code.
      has "OpenE2eeVpnService.METHOD_CHANNEL" code
      || (has "\"opene2ee/vpn\"" code || has "'opene2ee/vpn'" code))
    ∷ need "missing `setMethodCallHandler` install" (has "setMethodCallHandler")
    ∷ need "missing `OpenE2eeVpnService.dispatch` call" (has "OpenE2eeVpnService.dispatch")
    ∷ []

unfoldable pub run_s73_check : Option Text → List Failure
run_s73_check main_activity_text = run_each strip_plain s73_mirror main_activity_text
