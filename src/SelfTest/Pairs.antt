-- ===== src/SelfTest/Pairs.antt =====
-- The copies of tools/audit-self-test.py about two files:
-- S44, S88, S91, S99, S106.
use e2ee_app.Audit.Strip.{strip_plain}
use e2ee_app.Base.{not, Option, ◌||◌, ◌++◌, List, [], ◌∷◌}
use e2ee_app.Needs.{Need, has, need, needle, raw}
use e2ee_app.Py.Re.{seq, literal, space, plus, spaced, occurs}
use e2ee_app.Py.Text.{Text, codes}
use e2ee_app.SelfTest.{Failure, run_each, run_joined, when_given}

abbrev pub s99_build_gradle_kts_mirror : List Need
s99_build_gradle_kts_mirror =
    need "S99 fail (build.gradle.kts missing `io.netty:netty-all` Netty dep)"
      (has "io.netty:netty-all")
    ∷ []

abbrev pub s99_netty_channel_client_mirror : List Need
s99_netty_channel_client_mirror =
    need "S99 fail (NettyChannelClient.kt missing `VpnService.protect(` call)"
      (has "VpnService.protect(")
    ∷ need "S99 fail (NettyChannelClient.kt missing `class NettyChannelClient`"
        (has "class NettyChannelClient")
    ∷ []

abbrev pub s99_vpn_service_mirror : List Need
s99_vpn_service_mirror =
    need "S99 fail (OpenE2eeVpnService.kt missing `user-space` literal)" (has "user-space") ∷ []

unfoldable pub run_s99_check : Option Text → Option Text → Option Text → List Failure
run_s99_check opene2ee_vpn_service_text build_gradle_kts_text netty_channel_client_text =
    run_each raw s99_build_gradle_kts_mirror build_gradle_kts_text
    ++ (run_each raw s99_netty_channel_client_mirror netty_channel_client_text
        ++ (run_each raw s99_vpn_service_mirror opene2ee_vpn_service_text))

abbrev pub s106_vpn_service_mirror : List Need
s106_vpn_service_mirror =
    need "missing `TCP packet ENTRY` log breadcrumb" (has "TCP packet ENTRY")
    ∷ need "missing `parseTcpHeader dstPort=` log breadcrumb" (has "parseTcpHeader dstPort=")
    ∷ need "missing `handleTcpPacket dispatch` log breadcrumb" (has "handleTcpPacket dispatch")
    ∷ []

abbrev pub s106_netty_mirror : List Need
s106_netty_mirror =
    need "missing `new TcpConnection` log breadcrumb"
      (λ code. has "new TcpConnection" code || has "TcpConnection()" code)
    ∷ need "missing state transition log breadcrumb"
        (λ code. has "-> SYN_SENT" code || has "-> ESTABLISHED" code)
    ∷ []

unfoldable pub run_s106_check : Option Text → Option Text → List Failure
run_s106_check vpn_service_text netty_text = when_given (vpn_service_text ∷ []) (
    when_given (netty_text ∷ []) (
      run_each strip_plain s106_vpn_service_mirror vpn_service_text
      ++ (run_each strip_plain s106_netty_mirror netty_text)))

abbrev pub s91_vpn_service_mirror : List Need
s91_vpn_service_mirror =
    need "S91 fail (isPrivateDnsActive check missing)" (has "isPrivateDnsActive")
    ∷ need "S91 fail (ConnectivityManager import missing)"
        (has "import android.net.ConnectivityManager")
    ∷ need "S91 fail (bindProcessToNetwork call missing)" (has "bindProcessToNetwork")
    ∷ []

abbrev pub s91_active_pool_mirror : List Need
s91_active_pool_mirror =
    need "S91 fail (private_dns_active check missing)" (has "private_dns_active")
    ∷ need "S91 fail (chrome://flags/#dns-httpssvc literal missing)"
        (has "chrome://flags/#dns-httpssvc")
    ∷ []

unfoldable pub run_s91_check : Option Text → Option Text → List Failure
run_s91_check opene2ee_vpn_service_text active_pool_text =
    run_each raw s91_vpn_service_mirror opene2ee_vpn_service_text
    ++ (run_each raw s91_active_pool_mirror active_pool_text)

abbrev pub s88_active_pool_mirror : List Need
s88_active_pool_mirror =
    need "S88 fail (LEVEL 1 .stop().timeout missing)"
      (occurs (spaced (".stop" ∷ "(" ∷ ")" ∷ "." ∷ "timeout" ∷ "(" ∷ [])))
    ∷ need "S88 fail (TimeoutException handler missing)" (has "TimeoutException")
    ∷ need "S88 fail (opene2ee/permissions channel missing)" (has "opene2ee/permissions")
    ∷ need "S88 fail (disconnectVpn call missing)" (has "disconnectVpn")
    ∷ need "S88 fail (anti-pattern early-return on null sessionId)" (λ text. not (
        occurs
          (spaced
            ("if" ∷ "(" ∷ "_orchestrator.sessionId" ∷ "==" ∷ "null" ∷ ")" ∷ "{" ∷ "return" ∷ []))
          text))
    ∷ []

abbrev pub s88_main_activity_mirror : List Need
s88_main_activity_mirror =
    need "S88 fail (MainActivity.disconnectVpn method missing)" (
      occurs (seq (literal (codes "fun")) (seq (plus space) (spaced ("disconnectVpn" ∷ "(" ∷ [])))))
    ∷ need "S88 fail (stopService call missing)" (has "stopService")
    ∷ need "S88 fail (VpnService.prepare call missing)" (has "VpnService.prepare")
    ∷ need "S88 fail (OpenE2eeVpnService class target missing)"
        (has "OpenE2eeVpnService::class.java")
    ∷ need "S88 fail (onPermissionsCall disconnectVpn branch missing)"
        (occurs (spaced ("\"disconnectVpn\"" ∷ "->" ∷ "disconnectVpn" ∷ "(" ∷ [])))
    ∷ []

unfoldable pub run_s88_check : Option Text → Option Text → List Failure
run_s88_check active_pool_text main_activity_text =
    run_each raw s88_active_pool_mirror active_pool_text
    ++ (run_each raw s88_main_activity_mirror main_activity_text)

abbrev pub s44_whatsapp_provider_mirror : List Need
s44_whatsapp_provider_mirror = needle "intent://send?text=" ∷ needle "https://wa.me/?text=" ∷ []

abbrev pub s44_whatsapp_screen_mirror : List Need
s44_whatsapp_screen_mirror =
    need "S44 fail (screen missing: tryOpenWithReason)" (has "tryOpenWithReason") ∷ []

unfoldable pub run_s44_check : Option Text → Option Text → List Failure
run_s44_check whatsapp_provider_text whatsapp_screen_text =
    when_given (whatsapp_provider_text ∷ []) (
      run_joined raw s44_whatsapp_provider_mirror whatsapp_provider_text
      ++ (when_given (whatsapp_screen_text ∷ [])
          (run_each raw s44_whatsapp_screen_mirror whatsapp_screen_text)))
