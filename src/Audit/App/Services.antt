-- ===== src/Audit/App/Services.antt =====
-- The checks of tools/workflow-yaml-audit.py about the services and the state of the mobile app:
-- S40, S41, S47, S49, S52, S76.
use e2ee_app.Audit.App.{
  p2p_matcher_dart, packet_parser_dart, telemetry_service_dart, vpn_service_dart,
  whatsapp_deeplink_provider_dart,
}
use e2ee_app.Audit.Needs.{check_joined, check_each}
use e2ee_app.Audit.Repo.{Repo, Finding}
use e2ee_app.Audit.Strip.{strip_plain}
use e2ee_app.Base.{not, ◌||◌, List, [], ◌∷◌}
use e2ee_app.Needs.{Need, has, need, needle, raw}
use e2ee_app.Py.Re.{seq, star, char, literal, space, word, spaced, occurs}
use e2ee_app.Py.Text.{codes}

abbrev pub s40_needs : List Need
s40_needs = needle "intent://send?" ∷ needle "#Intent;scheme=whatsapp;package=com.whatsapp;end" ∷ []

unfoldable pub check_whatsapp_deeplink_intent_format : Repo → List Finding
check_whatsapp_deeplink_intent_format repo =
    check_joined raw whatsapp_deeplink_provider_dart s40_needs
      (repo.file whatsapp_deeplink_provider_dart)

abbrev pub s41_needs : List Need
s41_needs =
    need "missing the literal `/api/v1/sessions`" (has "/api/v1/sessions")
    ∷ need "contains the FORBIDDEN literal `/api/v1/matches`"
        (λ text. not (has "/api/v1/matches" text))
    ∷ []

unfoldable pub check_p2p_matcher_sessions_endpoint : Repo → List Finding
check_p2p_matcher_sessions_endpoint repo =
    check_each raw p2p_matcher_dart s41_needs (repo.file p2p_matcher_dart)

abbrev pub s47_needs : List Need
s47_needs =
    needle "packetStream"
    ∷ need "MethodChannel import" (has "import 'package:flutter/services.dart'")
    ∷ []

unfoldable pub check_vpn_service_packet_stream_getter_v15 : Repo → List Finding
check_vpn_service_packet_stream_getter_v15 repo =
    check_joined raw vpn_service_dart s47_needs (repo.file vpn_service_dart)

abbrev pub s49_needs : List Need
s49_needs = needle "class SampledPacket" ∷ needle "fromBytes" ∷ needle "toJson" ∷ []

unfoldable pub check_sampled_packet_class_v15 : Repo → List Finding
check_sampled_packet_class_v15 repo =
    check_joined raw packet_parser_dart s49_needs (repo.file packet_parser_dart)

abbrev pub s52_needs : List Need
s52_needs =
    needle "sendSummary"
    ∷ need "/api/v1/sessions/ path" (has "/api/v1/sessions/")
    ∷ need "encryptionIntegrityPct field" (has "encryptionIntegrityPct")
    ∷ need "packetLossPct field" (has "packetLossPct")
    ∷ []

unfoldable pub check_telemetry_service_summary_upload_v15 : Repo → List Finding
check_telemetry_service_summary_upload_v15 repo =
    check_joined raw telemetry_service_dart s52_needs (repo.file telemetry_service_dart)

abbrev pub s76_needs : List Need
s76_needs =
    need "missing the private constructor (`VpnService._internal(` or" (λ text.
      has "VpnService._internal(" text
      || has "VpnService._(" text
      || occurs
          (seq (literal (codes "VpnService._")) (seq (star word) (seq (star space) (char b'('))))
          text)
    ∷ need "missing the singleton accessor (`static VpnService get instance` or" (λ text.
      has "static VpnService get instance" text || has "static final VpnService _instance" text)
    ∷ need "contains a public `VpnService()` default constructor"
        (λ text. not (occurs (spaced ("VpnService" ∷ "(" ∷ ")" ∷ [])) (strip_plain text)))
    ∷ []

unfoldable pub check_vpn_service_dart_singleton_v20 : Repo → List Finding
check_vpn_service_dart_singleton_v20 repo =
    check_each raw vpn_service_dart s76_needs (repo.file vpn_service_dart)
