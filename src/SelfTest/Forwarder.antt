-- ===== src/SelfTest/Forwarder.antt =====
-- The copies of tools/audit-self-test.py about the TCP forwarder:
-- S116, S117, S118, S119.
use e2ee_app.Audit.Strip.{strip_plain}
use e2ee_app.Base.{Option, ◌||◌, List, [], ◌∷◌}
use e2ee_app.Needs.{Need, has, need}
use e2ee_app.Py.Text.{Text}
use e2ee_app.SelfTest.{Failure, run_each}

abbrev pub s116_mirror : List Need
s116_mirror =
    need "missing `class UdpForwarder` declaration" (has "class UdpForwarder")
    ∷ need "missing `udpSocketMap` field" (has "udpSocketMap")
    ∷ need "missing `udpReaderFutures` field" (has "udpReaderFutures")
    ∷ need "missing `fun tearDown()` method on UdpForwarder" (has "fun tearDown()")
    ∷ need "missing `cancel(true)` in UdpForwarder.tearDown" (has "cancel(true)")
    ∷ need "missing per-flow DatagramSocket close in UdpForwarder.tearDown"
        (λ code. has "sock.close()" code || has "s.close()" code)
    ∷ need "missing backgroundExecutor.shutdownNow() in UdpForwarder.tearDown" (has "shutdownNow()")
    ∷ need "missing backgroundExecutor.awaitTermination in UdpForwarder.tearDown"
        (has "awaitTermination")
    ∷ need "missing `protect(` call in UdpForwarder.handleUdpPacket" (has "protect(")
    ∷ need "missing `udpForwarder.tearDown()` call from stopCapture" (has "udpForwarder.tearDown()")
    ∷ need "missing `udpForwarder.setTunOutputStream(...)` call from"
        (has "udpForwarder.setTunOutputStream")
    ∷ []

unfoldable pub run_s116_check : Option Text → List Failure
run_s116_check opene2ee_vpn_service_text =
    run_each strip_plain s116_mirror opene2ee_vpn_service_text

abbrev pub s117_mirror : List Need
s117_mirror =
    need "missing `class TcpForwarder` declaration" (has "class TcpForwarder")
    ∷ need "missing `tcpConnectionMap` field" (has "tcpConnectionMap")
    ∷ need "missing `tcpReaderFutures` field" (has "tcpReaderFutures")
    ∷ need "missing `fun tearDown()` method on TcpForwarder" (has "fun tearDown()")
    ∷ need "missing `cancel(true)` in TcpForwarder.tearDown" (has "cancel(true)")
    ∷ need "missing per-flow Socket close in TcpForwarder.tearDown"
        (λ code. has "conn.socket?.close()" code || has "conn.socket?.close()" code)
    ∷ need "missing `conn.readerThread?.interrupt()` in TcpForwarder.tearDown"
        (has "conn.readerThread?.interrupt()")
    ∷ need "missing `conn.readerThread?.join` in TcpForwarder.tearDown"
        (has "conn.readerThread?.join")
    ∷ need "missing backgroundExecutor.shutdownNow() in TcpForwarder.tearDown" (has "shutdownNow()")
    ∷ need "missing backgroundExecutor.awaitTermination in TcpForwarder.tearDown"
        (has "awaitTermination")
    ∷ need "missing `service.protect(` call in TcpForwarder.handleSyn" (has "service.protect(")
    ∷ need "missing `tcpForwarder.tearDown()` call from stopCapture" (has "tcpForwarder.tearDown()")
    ∷ need "missing `tcpForwarder.setTunOutputStream(...)` call from"
        (has "tcpForwarder.setTunOutputStream")
    ∷ []

unfoldable pub run_s117_check : Option Text → List Failure
run_s117_check opene2ee_vpn_service_text =
    run_each strip_plain s117_mirror opene2ee_vpn_service_text

abbrev pub s118_mirror : List Need
s118_mirror =
    need "missing `recvHttpResponse:` log breadcrumb" (has "recvHttpResponse:")
    ∷ need "missing `status=` token in the recvHttpResponse log" (has "status=")
    ∷ need "missing `content-type=` token in the recvHttpResponse log" (has "content-type=")
    ∷ need "missing `content-length=` token in the recvHttpResponse log" (has "content-length=")
    ∷ need "missing `SUSPECT response` validation Log.w" (has "SUSPECT response")
    ∷ need "missing `forwarded via reverseKey` Log.d" (has "forwarded via reverseKey")
    ∷ need "missing `responsePayload:` log breadcrumb" (has "responsePayload:")
    ∷ need "missing `bodyBytes=` token in the responsePayload log" (has "bodyBytes=")
    ∷ []

unfoldable pub run_s118_check : Option Text → List Failure
run_s118_check opene2ee_vpn_service_text =
    run_each strip_plain s118_mirror opene2ee_vpn_service_text

abbrev pub s119_mirror : List Need
s119_mirror =
    need "missing `expected=application/json` token in the SUSPECT log"
      (has "expected=application/json")
    ∷ need "missing `Host=` token in the sendHttpRequest log" (has "Host=")
    ∷ need "missing `bodyFirst100` token in the response body fingerprint log" (has "bodyFirst100")
    ∷ need "missing `MISMATCH` token in the body length check log" (has "MISMATCH")
    ∷ need "missing `flow forward` Log.d" (has "flow forward")
    ∷ []

unfoldable pub run_s119_check : Option Text → List Failure
run_s119_check opene2ee_vpn_service_text =
    run_each strip_plain s119_mirror opene2ee_vpn_service_text
