-- ===== src/SelfTest/Netty.antt =====
-- The copies of tools/audit-self-test.py about NettyChannelClient.kt:
-- S100, S101, S102, S103, S104, S105.
use e2ee_app.Audit.Strip.{strip_plain}
use e2ee_app.Base.{not, Option, ◌||◌, ◌==◌, List, [], ◌∷◌}
use e2ee_app.Needs.{Need, has, need}
use e2ee_app.Py.Text.{Text, codes, find, find_behind}
use e2ee_app.SelfTest.{Failure, run_each}

abbrev pub s100_mirror : List Need
s100_mirror =
    need "missing `fun handleTcpPacket(` method declaration" (has "fun handleTcpPacket(")
    ∷ need "missing `data class TcpConnection` declaration" (has "data class TcpConnection")
    ∷ []

unfoldable pub run_s100_check : Option Text → List Failure
run_s100_check netty_text = run_each strip_plain s100_mirror netty_text

abbrev pub s101_mirror : List Need
s101_mirror =
    need "missing `enum class TcpState` declaration" (has "enum class TcpState")
    ∷ need "missing TcpState `LISTEN` (label=LISTEN)" (has "LISTEN")
    ∷ need "missing TcpState `SYN_SENT` (label=SYN_SENT)" (has "SYN_SENT")
    ∷ need "missing TcpState `ESTABLISHED` (label=ESTABLISHED)" (has "ESTABLISHED")
    ∷ need "missing TcpState `FIN_WAIT_1` (label=FIN_WAIT_1)" (has "FIN_WAIT_1")
    ∷ need "missing TcpState `FIN_WAIT_2` (label=FIN_WAIT_2)" (has "FIN_WAIT_2")
    ∷ need "missing TcpState `CLOSE_WAIT` (label=CLOSE_WAIT)" (has "CLOSE_WAIT")
    ∷ need "missing TcpState `LAST_ACK` (label=LAST_ACK)" (has "LAST_ACK")
    ∷ need "missing TcpState `TIME_WAIT` (label=TIME_WAIT)" (has "TIME_WAIT")
    ∷ need "missing TcpState `CLOSED` (label=CLOSED)" (has "CLOSED")
    ∷ []

unfoldable pub run_s101_check : Option Text → List Failure
run_s101_check netty_text = run_each strip_plain s101_mirror netty_text

abbrev pub s102_mirror : List Need
s102_mirror =
    need "missing `SYN, flow` log breadcrumb" (has "SYN, flow")
    ∷ need "missing `SYN+ACK received` log breadcrumb" (has "SYN+ACK received")
    ∷ need "missing ACK log breadcrumb (neither `ACK, flow` nor `ACK ->` present)"
        (λ code. has "ACK, flow" code || has "ACK ->" code)
    ∷ need "missing `-> ESTABLISHED` state transition log" (has "-> ESTABLISHED")
    ∷ []

unfoldable pub run_s102_check : Option Text → List Failure
run_s102_check netty_text = run_each strip_plain s102_mirror netty_text

abbrev pub s103_mirror : List Need
s103_mirror =
    need "missing `fun handleUdpPacket(` method declaration" (has "fun handleUdpPacket(") ∷ []

unfoldable pub run_s103_check : Option Text → List Failure
run_s103_check netty_text = run_each strip_plain s103_mirror netty_text

abbrev pub s104_mirror : List Need
s104_mirror =
    need "missing `DatagramSocket` literal in the handleUdpPacket code path" (has "DatagramSocket")
    ∷ []

unfoldable pub run_s104_check : Option Text → List Failure
run_s104_check netty_text = run_each strip_plain s104_mirror netty_text

abbrev pub s105_mirror : List Need
s105_mirror =
    need "missing `protect(` call site AFTER the `DatagramSocket` literal in the" (λ code.
      not (has "DatagramSocket" code)
      || not (find_behind (codes "protect(") (find (codes "DatagramSocket") code) code == 0))
    ∷ []

unfoldable pub run_s105_check : Option Text → List Failure
run_s105_check netty_text = run_each strip_plain s105_mirror netty_text
