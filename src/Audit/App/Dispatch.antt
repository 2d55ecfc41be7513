-- ===== src/Audit/App/Dispatch.antt =====
-- `check_tcp_5tuple_v45` of tools/workflow-yaml-audit.py (S106 to S108): the dispatch of the TCP
-- packets, in OpenE2eeVpnService.kt and NettyChannelClient.kt.
use e2ee_app.Audit.App.{netty_channel_client_kt, vpn_service_kt}
use e2ee_app.Audit.Repo.{
  Repo, Finding, File, absent, content, file_missing, read_failed, missing_literals,
}
use e2ee_app.Audit.Strip.{strip_plain}
use e2ee_app.Base.{ℕ, not, ◌&&◌, ◌||◌, List, [], ◌∷◌, ◌++◌, ◌==◌, ◌-◌, drop, if◌then◌else◌}
use e2ee_app.Needs.{Need, has, need, unmet, each}
use e2ee_app.Py.Text.{Text, codes, find}

-- Both files must be there, the first one first, and both must be readable.
abbrev pub examine_two : Text → File → Text → File → (Text → Text → List Finding) → List Finding
examine_two p absent q g body = file_missing p ∷ []
examine_two p f q absent body = file_missing q ∷ []
examine_two p (content s) q (content t) body = body s t
examine_two p f q g body = read_failed p ∷ []

-- Where the flag is declared; 0 where it is not.
abbrev pub handled_place : Text → ℕ
handled_place code =
    let place = find (codes "var handled") code in
    if place == 0 then find (codes "val handled") code else place

abbrev pub s106_vpn_service_needs : List Need
s106_vpn_service_needs =
    need "missing `TCP packet ENTRY` log breadcrumb" (has "TCP packet ENTRY")
    ∷ need "missing `parseTcpHeader dstPort=` log breadcrumb" (has "parseTcpHeader dstPort=")
    ∷ need "missing `handleTcpPacket dispatch` log breadcrumb" (has "handleTcpPacket dispatch")
    ∷ []

abbrev pub s106_netty_needs : List Need
s106_netty_needs =
    need "missing `new TcpConnection` or state transition log breadcrumb" (λ code.
      (has "new TcpConnection" code || has "TcpConnection()" code)
      && (has "-> SYN_SENT" code || has "-> ESTABLISHED" code))
    ∷ []

abbrev pub s107_needs : List Need
s107_needs =
    need "missing `handled` boolean flag in the startReaderThread dispatch block"
      (λ code. has "var handled" code || has "val handled" code)
    ∷ need "missing `passthrough SKIPPED` log breadcrumb" (has "passthrough SKIPPED")
    ∷ need "`handled` flag missing"
        (λ code. not (has "output.write" code && handled_place code == 0))
    ∷ need "`output.write` is NOT wrapped in `if (handled)` conditional" (λ code.
      not (has "output.write" code && not (handled_place code == 0))
      || has "if (handled)" (drop (handled_place code - 1) code))
    ∷ []

abbrev pub s108_needs : List Need
s108_needs =
    need "missing `primaryFlowKey` declaration" (has "primaryFlowKey")
    ∷ need "missing `reverseFlowKey` declaration" (has "reverseFlowKey")
    ∷ []

abbrev pub report_unmet : Text → List Need → Text → List Finding
report_unmet path needs code = each (missing_literals path) (unmet needs code)

-- The findings of the two stripped texts, in their order.
unfoldable pub check_dispatch : Text → Text → List Finding
unfolding unmet
check_dispatch netty_code vpn_code =
    report_unmet vpn_service_kt s106_vpn_service_needs vpn_code
    ++ (report_unmet netty_channel_client_kt s106_netty_needs netty_code
        ++ (report_unmet vpn_service_kt s107_needs vpn_code
            ++ report_unmet netty_channel_client_kt s108_needs netty_code))

unfoldable pub check_tcp_5tuple_v45 : Repo → List Finding
unfolding check_dispatch
check_tcp_5tuple_v45 repo =
    examine_two netty_channel_client_kt (repo.file netty_channel_client_kt) vpn_service_kt
      (repo.file vpn_service_kt)
      (λ netty_text service_text.
        check_dispatch (strip_plain netty_text) (strip_plain service_text))
