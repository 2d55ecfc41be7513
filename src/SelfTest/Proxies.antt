-- ===== src/SelfTest/Proxies.antt =====
-- The copies of tools/audit-self-test.py about the proxies:
-- S137, S138, S139.
use e2ee_app.Base.{Option, ◌||◌, ◌++◌, List, [], ◌∷◌}
use e2ee_app.Needs.{Need, has, need, raw}
use e2ee_app.Py.Text.{Text}
use e2ee_app.SelfTest.{Failure, run_each, when_given}

abbrev pub s137_main_activity_mirror : List Need
s137_main_activity_mirror =
    need "missing import `com.opene2ee.opene2ee.vpn.OpenE2eeVpnService`"
      (has "com.opene2ee.opene2ee.vpn.OpenE2eeVpnService")
    ∷ need "missing `OpenE2eeVpnService.activeInstance` reference"
        (has "OpenE2eeVpnService.activeInstance")
    ∷ need "missing `svc.stopVpn()` direct call" (has "svc.stopVpn()")
    ∷ []

abbrev pub s137_android_manifest_mirror : List Need
s137_android_manifest_mirror =
    need "missing `.vpn.OpenE2eeVpnService` service entry" (has ".vpn.OpenE2eeVpnService")
    ∷ need "missing `android.permission.BIND_VPN_SERVICE` permission"
        (has "android.permission.BIND_VPN_SERVICE")
    ∷ need "missing `android.app.PROPERTY_SPECIAL_USE_FGS_SUBTYPE` property"
        (has "android.app.PROPERTY_SPECIAL_USE_FGS_SUBTYPE")
    ∷ need "missing `android.net.VpnService` action" (has "android.net.VpnService")
    ∷ []

unfoldable pub run_s137_check : Option Text → Option Text → List Failure
run_s137_check main_activity_text android_manifest_text =
    when_given (main_activity_text ∷ android_manifest_text ∷ []) (
      run_each raw s137_main_activity_mirror main_activity_text
      ++ (run_each raw s137_android_manifest_mirror android_manifest_text))

abbrev pub s138_udp_server_mirror : List Need
s138_udp_server_mirror =
    need "missing `Selector.open()` in init" (has "Selector.open()")
    ∷ need "missing `DatagramChannel.open()` call" (has "DatagramChannel.open()")
    ∷ need "missing `selector.select(` call" (has "selector.select(")
    ∷ []

abbrev pub s138_udp_tunnel_mirror : List Need
s138_udp_tunnel_mirror =
    need "missing `fun receivePackets` declaration" (has "fun receivePackets") ∷ []

abbrev pub s138_proxy_glob_mirror : List Need
s138_proxy_glob_mirror =
    need "S138 vpn/proxy/*: no `channel.register(` call" (has "channel.register(") ∷ []

unfoldable pub run_s138_check : Option Text → Option Text → Option Text → List Failure
run_s138_check udp_server_text udp_tunnel_text proxy_glob_text =
    when_given (udp_server_text ∷ udp_tunnel_text ∷ proxy_glob_text ∷ []) (
      run_each raw s138_udp_server_mirror udp_server_text
      ++ (run_each raw s138_udp_tunnel_mirror udp_tunnel_text
          ++ (run_each raw s138_proxy_glob_mirror proxy_glob_text)))

abbrev pub s139_tcp_proxy_server_mirror : List Need
s139_tcp_proxy_server_mirror =
    need "missing `ServerSocket(` creation" (has "ServerSocket(")
    ∷ need "missing `private fun handleNewClient` declaration" (has "private fun handleNewClient")
    ∷ need "missing `protect(` call" (λ text.
      has "vpnService.protect(" text || has "vpnService.protect (" text || has ".protect(" text)
    ∷ []

abbrev pub s139_tcp_tunnel_mirror : List Need
s139_tcp_tunnel_mirror =
    need "missing `class TcpTunnel(` declaration" (has "class TcpTunnel(")
    ∷ need "missing `fun run()` declaration"
        (λ text. has "override fun run()" text || has "fun run()" text)
    ∷ need "missing `clientSocket.getInputStream()` call"
        (λ text. has "clientSocket.getInputStream" text || has "clientSocket.getInputStream()" text)
    ∷ []

unfoldable pub run_s139_check : Option Text → Option Text → Option Text → List Failure
run_s139_check tcp_proxy_server_text tcp_tunnel_text proxy_glob_text =
    when_given (tcp_proxy_server_text ∷ tcp_tunnel_text ∷ proxy_glob_text ∷ []) (
      run_each raw s139_tcp_proxy_server_mirror tcp_proxy_server_text
      ++ (run_each raw s139_tcp_tunnel_mirror tcp_tunnel_text))
