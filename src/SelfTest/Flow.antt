-- ===== src/SelfTest/Flow.antt =====
-- The copies of tools/audit-self-test.py about the data flow and the teardown of NettyChannelClient.kt:
-- S108, S109, S110, S111, S112, S113, S114, S115.
use e2ee_app.Audit.Strip.{strip_plain}
use e2ee_app.Base.{not, Option, ltb, length, ◌&&◌, ◌||◌, ◌==◌, List, [], ◌∷◌}
use e2ee_app.Needs.{Need, has, need, final}
use e2ee_app.Py.Re.{
  seq, alt, star, cls, char, literal, space, word, plus, spaced, occurs, find_iter,
}
use e2ee_app.Py.Text.{Text, codes, count}
use e2ee_app.SelfTest.{Failure, run_each}

abbrev pub s108_mirror : List Need
s108_mirror =
    need "missing `primaryFlowKey` declaration" (has "primaryFlowKey")
    ∷ need "missing `reverseFlowKey` declaration" (has "reverseFlowKey")
    ∷ []

unfoldable pub run_s108_check : Option Text → List Failure
run_s108_check netty_text = run_each strip_plain s108_mirror netty_text

abbrev pub s109_mirror : List Need
s109_mirror =
    need "missing `sendHttpRequest:` log breadcrumb" (has "sendHttpRequest:")
    ∷ need "missing `recvHttpResponse:` log breadcrumb" (has "recvHttpResponse:")
    ∷ need "missing `responsePayload:` log breadcrumb" (has "responsePayload:")
    ∷ need "missing `bytes read from real socket` substring in the recvHttpResponse"
        (has "bytes read from real socket")
    ∷ []

unfoldable pub run_s109_check : Option Text → List Failure
run_s109_check netty_text = run_each strip_plain s109_mirror netty_text

abbrev pub s110_mirror : List Need
s110_mirror =
    need "missing `tcpConnectionMap.put primary flow` log" (has "tcpConnectionMap.put primary flow")
    ∷ need "missing `late ACK` debug log" (has "late ACK")
    ∷ []

unfoldable pub run_s110_check : Option Text → List Failure
run_s110_check netty_text = run_each strip_plain s110_mirror netty_text

abbrev pub s111_mirror : List Need
s111_mirror =
    need "too few `@Volatile` annotations (found .., need at least 8"
      (λ code. not (ltb (count (codes "@Volatile") code) 8))
    ∷ []

unfoldable pub run_s111_check : Option Text → List Failure
run_s111_check netty_text = run_each strip_plain s111_mirror netty_text

abbrev pub s112_mirror : List Need
s112_mirror =
    final "missing `tcpConnectionMap` field declaration" (has "tcpConnectionMap")
    ∷ need "tcpConnectionMap MUST be ConcurrentHashMap (not plain HashMap)"
        (has "ConcurrentHashMap")
    ∷ need "tcpConnectionMap is declared as plain HashMap (NOT ConcurrentHashMap)" (λ code.
      not (
        occurs
          (seq (literal (codes "tcpConnectionMap"))
            (seq (star (cls (λ c. not (c == b'=')))) (spaced ("=" ∷ "HashMap" ∷ []))))
          code)
      && not (
          occurs
            (seq (literal (codes "HashMap<")) (
              alt (seq (plus (cls (λ c. not (c == b',')))) (spaced ("," ∷ "tcpConnectionMap" ∷ [])))
                (seq (plus (cls (λ c. not (c == b',')))) (
                  seq (char b',') (
                    seq (star space) (
                      seq (plus (cls (λ c. not (c == b',')))) (
                        seq (spaced (">" ∷ "=" ∷ [])) (
                          seq (star space) (
                            seq (star (cls (λ c. not (c == b';'))))
                              (literal (codes "tcpConnectionMap")))))))))))
            code))
    ∷ []

unfoldable pub run_s112_check : Option Text → List Failure
run_s112_check netty_text = run_each strip_plain s112_mirror netty_text

abbrev pub s113_mirror : List Need
s113_mirror =
    need "handleSyn does NOT put BOTH the primary and reverse flowKey" (λ code. not (
      ltb
        (length
          (find_iter
            (seq (literal (codes "tcpConnectionMap[")) (
              seq (star space)
                (seq (plus word) (seq (star space) (spaced ("]" ∷ "=" ∷ "conn" ∷ []))))))
            code).0)
        2))
    ∷ []

unfoldable pub run_s113_check : Option Text → List Failure
run_s113_check netty_text = run_each strip_plain s113_mirror netty_text

abbrev pub s114_mirror : List Need
s114_mirror =
    need "`UNKNOWN FLOW` warning still present" (λ code. not (has "UNKNOWN FLOW" code))
    ∷ need "missing `forwarded via reverseKey` INFO log" (has "forwarded via reverseKey")
    ∷ need "missing `late ACK` debug log message" (has "late ACK")
    ∷ []

unfoldable pub run_s114_check : Option Text → List Failure
run_s114_check netty_text = run_each strip_plain s114_mirror netty_text

abbrev pub s115_mirror : List Need
s115_mirror =
    need "missing step 1 of comprehensive teardown (flowMap.clear)" (has "flowMap.clear()")
    ∷ need "missing step 2 of comprehensive teardown (tcpConnectionMap.clear)"
        (has "tcpConnectionMap.clear()")
    ∷ need "missing step 2b of comprehensive teardown (readerFuture.cancel(true))"
        (λ code. has "readerFuture" code && has "cancel(true)" code)
    ∷ need "missing step 3 of comprehensive teardown (udpSocketMap.clear OR step 3"
        (λ code. has "udpSocketMap.clear()" code || has "step 3 DELEGATED" code)
    ∷ need "missing step 3b of comprehensive teardown (udpReaderFutures cancel OR"
        (λ code. has "udpReaderFutures" code || has "step 3 DELEGATED" code)
    ∷ need "missing step 4 of comprehensive teardown (tunOutputStream = null)"
        (has "tunOutputStream = null")
    ∷ need "missing step 5 of comprehensive teardown" (has "workerGroup.shutdownGracefully()")
    ∷ need "missing step 5b of comprehensive teardown"
        (λ code. has "TimeUnit" code && has "await" code)
    ∷ need "missing step 6 of comprehensive teardown (backgroundExecutor)"
        (has "backgroundExecutor")
    ∷ need "missing step 6b of comprehensive teardown"
        (λ code. has "shutdownNow()" code && has "awaitTermination" code)
    ∷ []

unfoldable pub run_s115_check : Option Text → List Failure
run_s115_check netty_text = run_each strip_plain s115_mirror netty_text
