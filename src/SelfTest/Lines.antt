-- ===== src/SelfTest/Lines.antt =====
-- The copies of tools/audit-self-test.py that read a text line by line, without what stands behind
-- `//` (S130, S131, S133), that cut a text (S107), or that take one of two texts (S25, S35, S37).
use e2ee_app.Base.{
  Bool, false, not, ◌&&◌, ◌||◌, Option, none, some, List, [], ◌∷◌, ◌++◌, ◌-◌, ◌==◌, String, ℕ, drop,
  if◌then◌else◌,
}
use e2ee_app.Audit.Strip.{strip_plain}
use e2ee_app.Needs.{Need, has, need, raw}
use e2ee_app.Py.Text.{Text, codes, starts_with, splitlines, find, lower}
use e2ee_app.SelfTest.{Failure, failed, run_each, when_given}

-- `line.split("//", 1)[0]`
unfoldable pub before_slashes : Text → Text
unfolding starts_with
before_slashes [] = []
before_slashes (c ∷ s) =
    let rest = before_slashes s in if starts_with (codes "//") (c ∷ s) then [] else c ∷ rest

-- A line holds the literal before its `//`.
unfoldable pub some_line_has : String → List Text → Bool
unfolding before_slashes
some_line_has s [] = false
some_line_has s (line ∷ lines) = has s (before_slashes line) || some_line_has s lines

abbrev pub in_code : String → Text → Bool
in_code s text = some_line_has s (splitlines text)

abbrev pub s130_proxy_glob_mirror : List Need
s130_proxy_glob_mirror =
    need "contains `readFirstPacket` / `parseFirstPacket`"
      (λ text. not (has "readFirstPacket" text) && not (has "parseFirstPacket" text))
    ∷ []

abbrev pub s130_tcp_proxy_server_mirror : List Need
s130_tcp_proxy_server_mirror =
    need "missing `val portKey = clientSocket.port`" (has "val portKey = clientSocket.port")
    ∷ need "contains `clientSocket.localPort` in code"
        (λ text. not (has "clientSocket.localPort" text && in_code "clientSocket.localPort" text))
    ∷ []

unfoldable pub run_s130_check : Option Text → Option Text → List Failure
run_s130_check tcp_proxy_server_text vpn_proxy_glob_text = when_given (vpn_proxy_glob_text ∷ []) (
    run_each raw s130_proxy_glob_mirror vpn_proxy_glob_text
    ++ when_given (tcp_proxy_server_text ∷ [])
        (run_each raw s130_tcp_proxy_server_mirror tcp_proxy_server_text))

abbrev pub s131_mirror : List Need
s131_mirror =
    need "missing `private fun initConnection`" (has "private fun initConnection")
    ∷ need "missing `channel.register(selector, SelectionKey.OP_READ)`"
        (has "channel.register(selector, SelectionKey.OP_READ)")
    ∷ need "missing `key.attach(tunnel)`" (in_code "key.attach(tunnel)")
    ∷ need "missing `key.attachment() as? UdpTunnel`" (has "key.attachment() as? UdpTunnel")
    ∷ []

unfoldable pub run_s131_check : Option Text → List Failure
run_s131_check udp_server_text = run_each raw s131_mirror udp_server_text

abbrev pub s133_vpn_service_mirror : List Need
s133_vpn_service_mirror =
    need "missing `builder.addAllowedApplication`" (has "builder.addAllowedApplication")
    ∷ need "contains `addDisallowedApplication`" (λ text.
      not (has "addDisallowedApplication" text && in_code "addDisallowedApplication" text))
    ∷ need "missing `fun stopVpn()`" (has "fun stopVpn()")
    ∷ need "missing `stopVpn called`" (has "stopVpn called")
    ∷ need "missing `builder.setMtu(VPNConstants.VPN_MTU)`"
        (has "builder.setMtu(VPNConstants.VPN_MTU)")
    ∷ []

abbrev pub s133_main_activity_mirror : List Need
s133_main_activity_mirror =
    need "missing `\"stop\"`" (has "\"stop\"")
    ∷ need "missing `svc.stopVpn()`" (has "svc.stopVpn()")
    ∷ []

unfoldable pub run_s133_check : Option Text → Option Text → List Failure
run_s133_check opene2ee_vpn_service_text main_activity_text =
    when_given (opene2ee_vpn_service_text ∷ main_activity_text ∷ []) (
      run_each raw s133_vpn_service_mirror opene2ee_vpn_service_text
      ++ run_each raw s133_main_activity_mirror main_activity_text)

-- Where the flag is declared; 0 where it is not.
abbrev pub handled_place : Text → ℕ
handled_place code =
    let place = find (codes "var handled") code in
    if place == 0 then find (codes "val handled") code else place

-- The text from the flag on.
abbrev pub after_handled : Text → Text
after_handled code = drop (handled_place code - 1) code

-- The write and the test of the flag stand behind it.
abbrev pub is_wrapped : Text → Bool
is_wrapped after = has "output.write" after && has "if (handled)" after

abbrev pub writes_handled : Text → Bool
writes_handled code = has "output.write" code && not (handled_place code == 0)

abbrev pub s107_mirror : List Need
s107_mirror =
    need "missing `handled` boolean flag in the startReaderThread dispatch block"
      (λ code. has "var handled" code || has "val handled" code)
    ∷ need "passthrough skip is implemented but missing `passthrough SKIPPED` log" (λ code.
      not (writes_handled code && is_wrapped (after_handled code))
      || has "passthrough SKIPPED" (after_handled code))
    ∷ need "`output.write` is NOT wrapped in `if (handled)` conditional"
        (λ code. not (writes_handled code) || is_wrapped (after_handled code))
    ∷ need "missing `passthrough SKIPPED` log breadcrumb" (has "passthrough SKIPPED")
    ∷ []

unfoldable pub run_s107_check : Option Text → List Failure
run_s107_check opene2ee_vpn_service_text =
    run_each strip_plain s107_mirror opene2ee_vpn_service_text

-- One of the texts that are there holds the literal.
unfoldable pub some_text_has : String → List (Option Text) → Bool
some_text_has s [] = false
some_text_has s (none ∷ ts) = some_text_has s ts
some_text_has s (some text ∷ ts) = has s text || some_text_has s ts

unfoldable pub run_s35_check : Option Text → Option Text → List Failure
unfolding some_text_has
run_s35_check telemetry_text p2p_matcher_text =
    if some_text_has "String.fromEnvironment('API_KEY'" (telemetry_text ∷ p2p_matcher_text ∷ [])
    then []
    else failed (codes "literal missing in both services" ∷ []) ∷ []

unfoldable pub run_s37_check : Option Text → Option Text → List Failure
unfolding some_text_has
run_s37_check telemetry_text p2p_matcher_text =
    if some_text_has "authHeaders()" (telemetry_text ∷ p2p_matcher_text ∷ [])
    then []
    else failed (codes "literal missing in both services" ∷ []) ∷ []

-- A text that is not given is not searched.
abbrev pub no_vpn : String → Option Text → List Failure
no_vpn label none = []
no_vpn label (some text) = if has "vpn" (lower text) then failed (codes label ∷ []) ∷ [] else []

unfoldable pub run_s25_check : Option Text → Option Text → List Failure
run_s25_check main_text screens_text = no_vpn "main" main_text ++ no_vpn "screens" screens_text
