-- ===== src/SelfTest/Services.antt =====
-- The copies of tools/audit-self-test.py about the services and the state of the mobile app:
-- S33, S36, S38, S39, S40, S41, S47, S49, S52, S76.
use e2ee_app.Audit.Strip.{strip_plain}
use e2ee_app.Base.{not, Option, ◌||◌, List, [], ◌∷◌}
use e2ee_app.Needs.{Need, has, need, needle, raw}
use e2ee_app.Py.Re.{seq, star, char, literal, space, opt, spaced, occurs}
use e2ee_app.Py.Text.{Text, codes}
use e2ee_app.SelfTest.{Failure, run_each, run_joined}

abbrev pub s33_mirror : List Need
s33_mirror = needle "lastError" ∷ needle "lastSuccess" ∷ []

unfoldable pub run_s33_check : Option Text → List Failure
run_s33_check pool_provider_text = run_joined raw s33_mirror pool_provider_text

abbrev pub s36_mirror : List Need
s36_mirror = needle "http.post" ∷ needle "/api/v1/auth" ∷ needle "user_id" ∷ []

unfoldable pub run_s36_check : Option Text → List Failure
run_s36_check auth_service_text = run_joined raw s36_mirror auth_service_text

abbrev pub s38_mirror : List Need
s38_mirror = need "S38 fail (_tokenExpiresAt field missing)" (has "_tokenExpiresAt") ∷ []

unfoldable pub run_s38_check : Option Text → List Failure
run_s38_check auth_service_text = run_each raw s38_mirror auth_service_text

abbrev pub s39_mirror : List Need
s39_mirror = need "S39 fail (invalidate() method missing)" (has "invalidate()") ∷ []

unfoldable pub run_s39_check : Option Text → List Failure
run_s39_check auth_service_text = run_each raw s39_mirror auth_service_text

abbrev pub s40_mirror : List Need
s40_mirror =
    needle "intent://send?" ∷ needle "#Intent;scheme=whatsapp;package=com.whatsapp;end" ∷ []

unfoldable pub run_s40_check : Option Text → List Failure
run_s40_check whatsapp_provider_text = run_joined raw s40_mirror whatsapp_provider_text

abbrev pub s41_mirror : List Need
s41_mirror =
    need "S41 fail (missing /api/v1/sessions)" (has "/api/v1/sessions")
    ∷ need "S41 fail (forbidden /api/v1/matches still present)"
        (λ text. not (has "/api/v1/matches" text))
    ∷ []

unfoldable pub run_s41_check : Option Text → List Failure
run_s41_check p2p_matcher_text = run_each raw s41_mirror p2p_matcher_text

abbrev pub s47_mirror : List Need
s47_mirror =
    needle "packetStream"
    ∷ need "MethodChannel import" (has "import 'package:flutter/services.dart'")
    ∷ []

unfoldable pub run_s47_check : Option Text → List Failure
run_s47_check vpn_service_text = run_joined raw s47_mirror vpn_service_text

abbrev pub s49_mirror : List Need
s49_mirror = needle "class SampledPacket" ∷ needle "fromBytes" ∷ needle "toJson" ∷ []

unfoldable pub run_s49_check : Option Text → List Failure
run_s49_check packet_parser_text = run_joined raw s49_mirror packet_parser_text

abbrev pub s52_mirror : List Need
s52_mirror =
    needle "sendSummary"
    ∷ need "/api/v1/sessions/ path" (has "/api/v1/sessions/")
    ∷ need "encryptionIntegrityPct field" (has "encryptionIntegrityPct")
    ∷ need "packetLossPct field" (has "packetLossPct")
    ∷ []

unfoldable pub run_s52_check : Option Text → List Failure
run_s52_check telemetry_service_text = run_joined raw s52_mirror telemetry_service_text

abbrev pub s76_mirror : List Need
s76_mirror =
    need "missing the private constructor (`VpnService._internal(` or" (
      occurs (
        seq (literal (codes "VpnService._"))
          (seq (opt (literal (codes "internal"))) (seq (star space) (char b'(')))))
    ∷ need "missing the singleton accessor (`static VpnService get instance` or" (λ text.
      has "static VpnService get instance" text || has "static final VpnService _instance" text)
    ∷ need "contains a public `VpnService()` default constructor"
        (λ text. not (occurs (spaced ("VpnService" ∷ "(" ∷ ")" ∷ [])) (strip_plain text)))
    ∷ []

unfoldable pub run_s76_check : Option Text → List Failure
run_s76_check vpn_service_text = run_each raw s76_mirror vpn_service_text
