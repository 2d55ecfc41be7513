-- ===== src/Audit/App/Pairs.antt =====
-- The checks of tools/workflow-yaml-audit.py about two files:
-- S44, S88, S91, S99.
use e2ee_app.Audit.App.{
  active_pool_screen_dart, build_gradle_kts, main_activity_kt, netty_channel_client_kt,
  vpn_service_kt, whatsapp_deeplink_provider_dart, whatsapp_task_detail_screen_dart,
}
use e2ee_app.Audit.Needs.{check_joined, check_each, blank_each}
use e2ee_app.Audit.Repo.{Repo, Finding}
use e2ee_app.Base.{not, ◌++◌, List, [], ◌∷◌}
use e2ee_app.Needs.{Need, has, need, needle, raw}
use e2ee_app.Py.Re.{seq, literal, space, plus, spaced, occurs}
use e2ee_app.Py.Text.{codes}

abbrev pub s88_active_pool_screen_needs : List Need
s88_active_pool_screen_needs =
    need "missing LEVEL 1 (`VpnService.instance.stop().timeout(...)`) path in"
      (occurs (spaced (".stop" ∷ "(" ∷ ")" ∷ "." ∷ "timeout" ∷ "(" ∷ [])))
    ∷ need "missing `TimeoutException` handler" (has "TimeoutException")
    ∷ need "missing `opene2ee/permissions` MethodChannel" (has "opene2ee/permissions")
    ∷ need "missing `disconnectVpn` invocation" (has "disconnectVpn")
    ∷ need "contains the anti-pattern `if (_orchestrator.sessionId == null) { return" (λ text. not (
        occurs
          (spaced
            ("if" ∷ "(" ∷ "_orchestrator.sessionId" ∷ "==" ∷ "null" ∷ ")" ∷ "{" ∷ "return" ∷ []))
          text))
    ∷ []

abbrev pub s88_main_activity_needs : List Need
s88_main_activity_needs =
    need "missing `fun disconnectVpn(...)` method" (
      occurs (seq (literal (codes "fun")) (seq (plus space) (spaced ("disconnectVpn" ∷ "(" ∷ [])))))
    ∷ need "missing `stopService` call in disconnectVpn" (has "stopService")
    ∷ need "missing `VpnService.prepare` call in disconnectVpn" (has "VpnService.prepare")
    ∷ need "missing `OpenE2eeVpnService::class.java` Intent target"
        (has "OpenE2eeVpnService::class.java")
    ∷ need "missing `\"disconnectVpn\" -> disconnectVpn(` branch in onPermissionsCall"
        (occurs (spaced ("\"disconnectVpn\"" ∷ "->" ∷ "disconnectVpn" ∷ "(" ∷ [])))
    ∷ []

unfoldable pub check_oturumu_bitir_2level_fallback_v32 : Repo → List Finding
check_oturumu_bitir_2level_fallback_v32 repo =
    check_each raw active_pool_screen_dart s88_active_pool_screen_needs
      (repo.file active_pool_screen_dart)
    ++ (check_each raw main_activity_kt s88_main_activity_needs (repo.file main_activity_kt))

abbrev pub s91_vpn_service_needs : List Need
s91_vpn_service_needs =
    need "missing `isPrivateDnsActive` check" (has "isPrivateDnsActive")
    ∷ need "missing `import android.net.ConnectivityManager`"
        (has "import android.net.ConnectivityManager")
    ∷ need "missing `bindProcessToNetwork` call" (has "bindProcessToNetwork")
    ∷ []

abbrev pub s91_active_pool_screen_needs : List Need
s91_active_pool_screen_needs =
    need "missing `private_dns_active` literal" (has "private_dns_active")
    ∷ need "missing `chrome://flags/#dns-httpssvc` literal" (has "chrome://flags/#dns-httpssvc")
    ∷ []

unfoldable pub check_dns_private_dns_conflict_v34 : Repo → List Finding
check_dns_private_dns_conflict_v34 repo =
    check_each raw vpn_service_kt s91_vpn_service_needs (repo.file vpn_service_kt)
    ++ (check_each raw active_pool_screen_dart s91_active_pool_screen_needs
        (repo.file active_pool_screen_dart))

abbrev pub s99_build_gradle_needs : List Need
s99_build_gradle_needs =
    need "missing `io.netty:netty-all` Netty dependency" (has "io.netty:netty-all") ∷ []

abbrev pub s99_netty_channel_client_needs : List Need
s99_netty_channel_client_needs =
    need "missing `VpnService.protect(` call" (has "VpnService.protect(")
    ∷ need "missing `class NettyChannelClient` declaration" (has "class NettyChannelClient")
    ∷ []

abbrev pub s99_vpn_service_needs : List Need
s99_vpn_service_needs =
    need "missing `user-space` literal in the startReaderThread comment" (has "user-space") ∷ []

unfoldable pub check_user_space_tcp_ip_stack_invariant_v42 : Repo → List Finding
check_user_space_tcp_ip_stack_invariant_v42 repo =
    blank_each raw build_gradle_kts s99_build_gradle_needs (repo.file build_gradle_kts)
    ++ (blank_each raw netty_channel_client_kt s99_netty_channel_client_needs
          (repo.file netty_channel_client_kt)
        ++ (blank_each raw vpn_service_kt s99_vpn_service_needs (repo.file vpn_service_kt)))

abbrev pub s44_whatsapp_deeplink_provider_needs : List Need
s44_whatsapp_deeplink_provider_needs =
    needle "intent://send?text=" ∷ needle "https://wa.me/?text=" ∷ []

abbrev pub s44_whatsapp_task_detail_screen_needs : List Need
s44_whatsapp_task_detail_screen_needs =
    need "missing the literal `tryOpenWithReason`" (has "tryOpenWithReason") ∷ []

unfoldable pub check_whatsapp_deeplink_wa_me_format_v14 : Repo → List Finding
check_whatsapp_deeplink_wa_me_format_v14 repo =
    check_joined raw whatsapp_deeplink_provider_dart s44_whatsapp_deeplink_provider_needs
      (repo.file whatsapp_deeplink_provider_dart)
    ++ (check_each raw whatsapp_task_detail_screen_dart s44_whatsapp_task_detail_screen_needs
        (repo.file whatsapp_task_detail_screen_dart))
