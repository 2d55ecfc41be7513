-- ===== src/SelfTest/NetBare.antt =====
-- The copies of tools/audit-self-test.py about the constants and the helpers of the proxy:
-- S129, S132, S134, S135.
use e2ee_app.Base.{not, Option, ◌||◌, List, [], ◌∷◌}
use e2ee_app.Needs.{Need, has, need, raw}
use e2ee_app.Py.Text.{Text}
use e2ee_app.SelfTest.{Failure, run_each}

abbrev pub s129_mirror : List Need
s129_mirror =
    need "missing `object VPNConstants` declaration" (has "object VPNConstants")
    ∷ need "`const val VPN_MTU` found but value is NOT 1400"
        (λ text. has "const val VPN_MTU = 1400" text || not (has "const val VPN_MTU" text))
    ∷ need "missing `const val VPN_MTU = 1400` literal"
        (λ text. has "const val VPN_MTU = 1400" text || has "const val VPN_MTU" text)
    ∷ need "missing `const val PRIMARY_DNS = \"1.1.1.1\"` literal"
        (has "const val PRIMARY_DNS = \"1.1.1.1\"")
    ∷ []

unfoldable pub run_s129_check : Option Text → List Failure
run_s129_check vpn_constants_text = run_each raw s129_mirror vpn_constants_text

abbrev pub s132_mirror : List Need
s132_mirror =
    need "missing `fun refreshSessionInfo` declaration" (has "fun refreshSessionInfo")
    ∷ need "missing `getUid(session.localPort)` call" (has "getUid(session.localPort)")
    ∷ need "contains `getUid(session.remotePort)` literal"
        (λ text. not (has "getUid(session.remotePort)" text))
    ∷ []

unfoldable pub run_s132_check : Option Text → List Failure
run_s132_check port_host_service_text = run_each raw s132_mirror port_host_service_text

abbrev pub s134_mirror : List Need
s134_mirror =
    need "missing `const val TUN_ADDRESS = \"10.0.0.2\"` literal"
      (has "const val TUN_ADDRESS = \"10.0.0.2\"")
    ∷ need "missing `const val TUN_PREFIX = 32` literal" (has "const val TUN_PREFIX = 32")
    ∷ need "missing `const val VPN_ROUTE = \"0.0.0.0\"` literal"
        (has "const val VPN_ROUTE = \"0.0.0.0\"")
    ∷ need "missing `const val VPN_ROUTE_PREFIX = 0` literal" (has "const val VPN_ROUTE_PREFIX = 0")
    ∷ need "missing `const val SESSION_TIME_OUT_MS: Long = 60_000L` literal"
        (has "const val SESSION_TIME_OUT_MS: Long = 60_000L")
    ∷ need "missing `const val PACKET_SIZE = 32767` literal" (has "const val PACKET_SIZE = 32767")
    ∷ need "missing `const val NOTIFICATION_ID = 0x5650_4E4E` literal"
        (has "const val NOTIFICATION_ID = 0x5650_4E4E")
    ∷ []

unfoldable pub run_s134_check : Option Text → List Failure
run_s134_check vpn_constants_text = run_each raw s134_mirror vpn_constants_text

abbrev pub s135_mirror : List Need
s135_mirror =
    need "missing `class NetFileManager` declaration" (has "class NetFileManager")
    ∷ need "missing `fun getInstance(): NetFileManager` companion function"
        (has "fun getInstance(): NetFileManager")
    ∷ need "missing `fun getUid(port: Int): Int?` declaration" (has "fun getUid(port: Int): Int?")
    ∷ need "missing `fun refresh()` declaration" (has "fun refresh()")
    ∷ need "missing `fun init(context: Context)` declaration" (has "fun init(context: Context)")
    ∷ need "missing PR #33 header skip (`startsWith(\"  sl\")`)" (has "startsWith(\"  sl\")")
    ∷ []

unfoldable pub run_s135_check : Option Text → List Failure
run_s135_check net_file_manager_text = run_each raw s135_mirror net_file_manager_text
