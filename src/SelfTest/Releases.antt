-- ===== src/SelfTest/Releases.antt =====
-- The copies of tools/audit-self-test.py about the app and its changelog:
-- S120, S121, S122, S123, S124.
use e2ee_app.Audit.Strip.{strip_plain}
use e2ee_app.Base.{not, Option, ltb, ◌&&◌, ◌||◌, ◌==◌, ◌++◌, List, [], ◌∷◌}
use e2ee_app.Needs.{Need, has, need, raw}
use e2ee_app.Py.Re.{seq, star, line_start, space, spaced, occurs}
use e2ee_app.Py.Text.{Text, codes, count, find, lower}
use e2ee_app.SelfTest.{Failure, run_each, when_given}

abbrev pub s120_config_mirror : List Need
s120_config_mirror =
    need "missing `versionName` field on AppConfig" (has "versionName")
    ∷ need "missing `versionCode` field on AppConfig" (has "versionCode")
    ∷ need "missing `kVersionName` file-scope alias" (has "kVersionName")
    ∷ need "missing `kVersionCode` file-scope alias" (has "kVersionCode")
    ∷ []

abbrev pub s120_active_pool_screen_mirror : List Need
s120_active_pool_screen_mirror =
    need "missing `v${kVersionName}` token in the AppBar `actions: [...]` array"
      (has "v${kVersionName}")
    ∷ need "missing `(${kVersionCode})` token in the AppBar `actions: [...]` array"
        (has "(${kVersionCode})")
    ∷ []

unfoldable pub run_s120_check : Option Text → Option Text → List Failure
run_s120_check config_text active_pool_screen_text =
    when_given (config_text ∷ active_pool_screen_text ∷ []) (
      run_each strip_plain s120_config_mirror config_text
      ++ (run_each strip_plain s120_active_pool_screen_mirror active_pool_screen_text))

abbrev pub s121_vpn_service_mirror : List Need
s121_vpn_service_mirror =
    need "missing `handleTcpPacket: dispatching flags=0x" (λ code.
      has "flags=0x" code
      && has "SYN=" code
      && has "ACK=" code
      && has "PSH=" code
      && has "FIN=" code
      && has "RST=" code)
    ∷ need "missing `buildVpnBuilder: allowedApps=N packages=[...]` breadcrumb"
        (has "buildVpnBuilder: allowedApps=")
    ∷ need "missing `checkPrivateDnsAndBindToVpn()` or `builder.establish()` call" (λ code.
      not (find (codes "checkPrivateDnsAndBindToVpn()") code == 0)
      && not (find (codes "builder.establish()") code == 0))
    ∷ need "`checkPrivateDnsAndBindToVpn()` called AFTER `builder.establish()`" (λ code.
      ((find (codes "checkPrivateDnsAndBindToVpn()") code == 0)
        || (find (codes "builder.establish()") code == 0))
      || not (
          ltb (find (codes "builder.establish()") code)
            (find (codes "checkPrivateDnsAndBindToVpn()") code)))
    ∷ []

abbrev pub s121_changelog_mirror : List Need
s121_changelog_mirror =
    need "missing `Sprint 12.0F+1` section" (has "Sprint 12.0F+1")
    ∷ need "missing `Tag 4 filter` (or `OpenE2eeVpn:V TcpForwarder:V`) documentation"
        (λ code. has "Tag 4 filter" code || has "OpenE2eeVpn:V TcpForwarder:V" code)
    ∷ need "missing `R8` or `proguard` documentation"
        (λ code. has "R8" code || has "proguard" (lower code))
    ∷ need "missing `SHA-256` (or `SHA256`) documentation"
        (λ code. has "SHA-256" code || has "SHA256" code)
    ∷ need "missing Tag 4 filter documentation" (λ code.
      has "TcpForwarder:V" code && has "UdpForwarder:V" code && has "NettyChannelClient:V" code)
    ∷ []

unfoldable pub run_s121_check : Option Text → Option Text → List Failure
run_s121_check opene2ee_vpn_service_text changelog_text =
    when_given (opene2ee_vpn_service_text ∷ changelog_text ∷ []) (
      run_each strip_plain s121_vpn_service_mirror opene2ee_vpn_service_text
      ++ (run_each strip_plain s121_changelog_mirror changelog_text))

abbrev pub s122_vpn_service_mirror : List Need
s122_vpn_service_mirror =
    need "missing `fun writeTcpRstToTun(` function" (has "fun writeTcpRstToTun(")
    ∷ need "too few `writeTcpRstToTun(` calls (found .., need at least 2"
        (λ code. not (ltb (count (codes "writeTcpRstToTun(") code) 2))
    ∷ need "missing `writeTcpRstToTun(` call in handleAck OR handleFinAck"
        (λ code. not (ltb (count (codes "writeTcpRstToTun(") code) 4))
    ∷ []

abbrev pub s122_proguard_mirror : List Need
s122_proguard_mirror =
    need "S122 proguard-rules.pro: missing `-keepclassmembers,allowobfuscation"
      (has "*** Log*(...)")
    ∷ need "S122 proguard-rules.pro: missing `-keepclassmembers,allowobfuscation"
        (has "public static final java.lang.String TAG")
    ∷ []

abbrev pub s122_vpn_service_mirror_more : List Need
s122_vpn_service_mirror_more =
    need "missing `import androidx.annotation.Keep`" (has "import androidx.annotation.Keep")
    ∷ need "missing `@Keep` annotation usage (count=.., need at least 1)"
        (λ code. not (ltb (count (codes "@Keep") code) 1))
    ∷ []

abbrev pub s122_changelog_mirror : List Need
s122_changelog_mirror =
    need "missing `Sprint 12.0F+2` section" (has "Sprint 12.0F+2")
    ∷ need "missing `Tag 4 filter` (or `OpenE2eeVpn:V TcpForwarder:V`) documentation"
        (λ code. has "Tag 4 filter" code || has "OpenE2eeVpn:V TcpForwarder:V" code)
    ∷ need "missing `7-step` test akışı documentation" (has "7-step")
    ∷ []

unfoldable pub run_s122_check : Option Text → Option Text → Option Text → List Failure
run_s122_check opene2ee_vpn_service_text proguard_text changelog_text =
    when_given (opene2ee_vpn_service_text ∷ proguard_text ∷ changelog_text ∷ []) (
      run_each strip_plain s122_vpn_service_mirror opene2ee_vpn_service_text
      ++ (run_each strip_plain s122_proguard_mirror proguard_text
          ++ (run_each strip_plain s122_vpn_service_mirror_more opene2ee_vpn_service_text
              ++ (run_each strip_plain s122_changelog_mirror changelog_text))))

abbrev pub s123_vpn_service_mirror : List Need
s123_vpn_service_mirror =
    need "missing `fun rebindProcessToNetworkWithRetry(` function declaration"
      (λ text. has "fun rebindProcessToNetworkWithRetry(" (strip_plain text))
    ∷ need "missing `rebindProcessToNetworkWithRetry()` call site"
        (λ text. not (ltb (count (codes "rebindProcessToNetworkWithRetry()") (strip_plain text)) 1))
    ∷ need "missing `// builder.addAllowedApplication` comment-out" (
        occurs (
          seq line_start (seq (star space) (spaced ("//" ∷ "builder.addAllowedApplication" ∷ [])))))
    ∷ need "missing `fun dumpVpnRoutingState(` function declaration"
        (λ text. has "fun dumpVpnRoutingState(" (strip_plain text))
    ∷ []

abbrev pub s123_changelog_mirror : List Need
s123_changelog_mirror =
    need "missing `vpnRoutingState: ip route` literal in the 8-step test akisi"
      (has "vpnRoutingState: ip route")
    ∷ []

unfoldable pub run_s123_check : Option Text → Option Text → List Failure
run_s123_check opene2ee_vpn_service_text changelog_text =
    when_given (opene2ee_vpn_service_text ∷ changelog_text ∷ []) (
      run_each raw s123_vpn_service_mirror opene2ee_vpn_service_text
      ++ (run_each strip_plain s123_changelog_mirror changelog_text))

abbrev pub s124_vpn_service_mirror : List Need
s124_vpn_service_mirror =
    need "missing `onMethodCall: received method=` entry log" (has "onMethodCall: received method=")
    ∷ need "missing `attachFlutterEngine: ENTER, prev Companion.methodChannel=` log"
        (has "attachFlutterEngine: ENTER, prev Companion.methodChannel=")
    ∷ []

abbrev pub s124_vpn_service_dart_mirror : List Need
s124_vpn_service_dart_mirror =
    need "missing `vpn_service.dart: start` print breadcrumb" (has "vpn_service.dart: start") ∷ []

abbrev pub s124_main_activity_mirror : List Need
s124_main_activity_mirror =
    need "missing `configureFlutterEngine: ENTER` log" (has "configureFlutterEngine: ENTER") ∷ []

unfoldable pub run_s124_check : Option Text → Option Text → Option Text → List Failure
run_s124_check opene2ee_vpn_service_text main_activity_text vpn_service_dart_text =
    when_given (opene2ee_vpn_service_text ∷ main_activity_text ∷ vpn_service_dart_text ∷ []) (
      run_each raw s124_vpn_service_mirror opene2ee_vpn_service_text
      ++ (run_each raw s124_vpn_service_dart_mirror vpn_service_dart_text
          ++ (run_each raw s124_main_activity_mirror main_activity_text)))
