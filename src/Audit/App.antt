-- ===== src/Audit/App.antt =====
-- The parts of the app that tools/workflow-yaml-audit.py searches for literals and patterns, and
-- the paths of their files.
pub mod Services
pub mod Manifest
pub mod Screens
pub mod Capture
pub mod Pairs
pub mod Netty
pub mod Tunnel
pub mod Channel
pub mod Score
pub mod Session
pub mod Backend
pub mod Service
pub mod Dispatch
pub mod Counter
pub mod Handlers
pub mod Order
use e2ee_app.Py.Text.{Text, codes}

abbrev pub active_pool_screen_dart : Text
active_pool_screen_dart = codes "mobile/lib/screens/active_pool_screen.dart"

abbrev pub android_manifest_xml : Text
android_manifest_xml = codes "mobile/android/app/src/main/AndroidManifest.xml"

abbrev pub build_gradle_kts : Text
build_gradle_kts = codes "mobile/android/app/build.gradle.kts"

abbrev pub main_activity_kt : Text
main_activity_kt = codes "mobile/android/app/src/main/kotlin/com/opene2ee/opene2ee/MainActivity.kt"

abbrev pub netty_channel_client_kt : Text
netty_channel_client_kt =
    codes "mobile/android/app/src/main/kotlin/com/opene2ee/opene2ee/vpn/NettyChannelClient.kt"

abbrev pub old_android_manifest_xml : Text
old_android_manifest_xml = codes "mobile/android/src/main/AndroidManifest.xml"

abbrev pub old_main_activity_kt : Text
old_main_activity_kt = codes "mobile/android/src/main/kotlin/com/opene2ee/opene2ee/MainActivity.kt"

abbrev pub old_vpn_service_kt : Text
old_vpn_service_kt =
    codes "mobile/android/src/main/kotlin/com/opene2ee/opene2ee/vpn/OpenE2eeVpnService.kt"

abbrev pub p2p_matcher_dart : Text
p2p_matcher_dart = codes "mobile/lib/services/p2p_matcher.dart"

abbrev pub packet_parser_dart : Text
packet_parser_dart = codes "mobile/lib/services/packet_parser.dart"

abbrev pub pubspec_yaml : Text
pubspec_yaml = codes "mobile/pubspec.yaml"

abbrev pub router_go : Text
router_go = codes "backend/internal/api/router.go"

abbrev pub score_calculator_dart : Text
score_calculator_dart = codes "mobile/lib/services/score_calculator.dart"

abbrev pub score_calculator_test_dart : Text
score_calculator_test_dart = codes "mobile/test/score_calculator_test.dart"

abbrev pub session_orchestrator_dart : Text
session_orchestrator_dart = codes "mobile/lib/services/session_orchestrator.dart"

abbrev pub sessions_go : Text
sessions_go = codes "backend/internal/api/sessions.go"

abbrev pub skorlar_screen_dart : Text
skorlar_screen_dart = codes "mobile/lib/screens/skorlar_screen.dart"

abbrev pub telemetry_service_dart : Text
telemetry_service_dart = codes "mobile/lib/services/telemetry_service.dart"

abbrev pub vpn_service_dart : Text
vpn_service_dart = codes "mobile/lib/services/vpn_service.dart"

abbrev pub vpn_service_kt : Text
vpn_service_kt =
    codes "mobile/android/app/src/main/kotlin/com/opene2ee/opene2ee/vpn/OpenE2eeVpnService.kt"

abbrev pub webrtc_service_dart : Text
webrtc_service_dart = codes "mobile/lib/services/webrtc_service.dart"

abbrev pub whatsapp_deeplink_provider_dart : Text
whatsapp_deeplink_provider_dart = codes "mobile/lib/state/whatsapp_deeplink_provider.dart"

abbrev pub whatsapp_task_detail_screen_dart : Text
whatsapp_task_detail_screen_dart = codes "mobile/lib/screens/whatsapp_task_detail_screen.dart"
