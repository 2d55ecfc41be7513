-- ===== src/Audit/App/Netty.antt =====
-- The checks of tools/workflow-yaml-audit.py about NettyChannelClient.kt:
-- S100, S103, S109, S115.
use e2ee_app.Audit.App.{netty_channel_client_kt}
use e2ee_app.Audit.Needs.{check_each}
use e2ee_app.Audit.Repo.{Repo, Finding}
use e2ee_app.Audit.Strip.{strip_plain}
use e2ee_app.Base.{not, ltb, ◌&&◌, ◌||◌, ◌==◌, List, [], ◌∷◌}
use e2ee_app.Needs.{Need, has, need}
use e2ee_app.Py.Text.{codes, count, find, find_behind}

abbrev pub s100_needs : List Need
s100_needs =
    need "missing `fun handleTcpPacket(` method declaration" (has "fun handleTcpPacket(")
    ∷ need "missing `data class TcpConnection` declaration" (has "data class TcpConnection")
    ∷ need "missing `enum class TcpState` declaration" (has "enum class TcpState")
    ∷ need "missing TcpState `LISTEN`" (has "LISTEN")
    ∷ need "missing TcpState `SYN_SENT`" (has "SYN_SENT")
    ∷ need "missing TcpState `ESTABLISHED`" (has "ESTABLISHED")
    ∷ need "missing TcpState `FIN_WAIT_1`" (has "FIN_WAIT_1")
    ∷ need "missing TcpState `FIN_WAIT_2`" (has "FIN_WAIT_2")
    ∷ need "missing TcpState `CLOSE_WAIT`" (has "CLOSE_WAIT")
    ∷ need "missing TcpState `LAST_ACK`" (has "LAST_ACK")
    ∷ need "missing TcpState `TIME_WAIT`" (has "TIME_WAIT")
    ∷ need "missing TcpState `CLOSED`" (has "CLOSED")
    ∷ need "missing `SYN, flow` log breadcrumb" (has "SYN, flow")
    ∷ need "missing `SYN+ACK received` log breadcrumb" (has "SYN+ACK received")
    ∷ need "missing ACK log breadcrumb (neither `ACK, flow` nor `ACK ->` present)"
        (λ code. has "ACK, flow" code || has "ACK ->" code)
    ∷ need "missing `-> ESTABLISHED` state transition log" (has "-> ESTABLISHED")
    ∷ []

unfoldable pub check_tcp_state_machine_v43 : Repo → List Finding
check_tcp_state_machine_v43 repo =
    check_each strip_plain netty_channel_client_kt s100_needs (repo.file netty_channel_client_kt)

abbrev pub s103_needs : List Need
s103_needs =
    need "missing `fun handleUdpPacket(` method declaration" (has "fun handleUdpPacket(")
    ∷ need "missing `DatagramSocket` literal" (has "DatagramSocket")
    ∷ need "missing `protect(` call site AFTER the `DatagramSocket` literal" (λ code.
      not (has "DatagramSocket" code)
      || not (find_behind (codes "protect(") (find (codes "DatagramSocket") code) code == 0))
    ∷ []

unfoldable pub check_udp_forwarder_v44 : Repo → List Finding
check_udp_forwarder_v44 repo =
    check_each strip_plain netty_channel_client_kt s103_needs (repo.file netty_channel_client_kt)

abbrev pub s109_needs : List Need
s109_needs =
    need "missing `sendHttpRequest:` log breadcrumb" (has "sendHttpRequest:")
    ∷ need "missing `recvHttpResponse:` log breadcrumb" (has "recvHttpResponse:")
    ∷ need "missing `responsePayload:` log breadcrumb" (has "responsePayload:")
    ∷ need "missing `bytes read from real socket` substring in the recvHttpResponse"
        (has "bytes read from real socket")
    ∷ need "missing `tcpConnectionMap.put primary flow` log"
        (has "tcpConnectionMap.put primary flow")
    ∷ need "missing `late ACK` debug log" (has "late ACK")
    ∷ need "too few `@Volatile` annotations (found .., need at least 8"
        (λ code. not (ltb (count (codes "@Volatile") code) 8))
    ∷ []

unfoldable pub check_tcp_dataflow_v46 : Repo → List Finding
check_tcp_dataflow_v46 repo =
    check_each strip_plain netty_channel_client_kt s109_needs (repo.file netty_channel_client_kt)

abbrev pub s115_needs : List Need
s115_needs =
    need "missing step 1 of comprehensive teardown (flowMap.clear)" (has "flowMap.clear()")
    ∷ need "missing step 2 of comprehensive teardown (tcpConnectionMap.clear)"
        (has "tcpConnectionMap.clear()")
    ∷ need "missing step 2b of comprehensive teardown (readerFuture.cancel(true))"
        (λ code. has "readerFuture" code && has "cancel(true)" code)
    ∷ need "missing step 3 of comprehensive teardown (udpSocketMap.clear)"
        (has "udpSocketMap.clear()")
    ∷ need "missing step 3b of comprehensive teardown (udpReaderFutures cancel)"
        (has "udpReaderFutures")
    ∷ need "missing step 4 of comprehensive teardown (tunOutputStream = null)"
        (has "tunOutputStream = null")
    ∷ need "missing step 5 of comprehensive teardown" (has "workerGroup.shutdownGracefully()")
    ∷ need "missing step 5b of comprehensive teardown" (has "await")
    ∷ need "missing step 6 of comprehensive teardown (backgroundExecutor)"
        (has "backgroundExecutor")
    ∷ need "missing step 6b of comprehensive teardown"
        (λ code. has "shutdownNow()" code && has "awaitTermination" code)
    ∷ []

unfoldable pub check_teardown_comprehensive_v48 : Repo → List Finding
check_teardown_comprehensive_v48 repo =
    check_each strip_plain netty_channel_client_kt s115_needs (repo.file netty_channel_client_kt)
