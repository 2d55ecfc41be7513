-- ===== src/Tests/OfSelfTest.antt =====
-- tools/audit-self-test.py, and the checks that it copies, on concrete texts.
use e2ee_app.Audit.App.Capture.{check_check_private_dns_call_before_establish_invariant_v41}
use e2ee_app.Audit.App.Order.{IsOrdered, check-IsOrdered}
use e2ee_app.Audit.App.Counter.Site.{IsCounted, check-IsCounted}
use e2ee_app.Audit.App.Counter.{
  check_vpn_service_packets_observed_increment_invariant_v27, session_functions, name_before,
}
use e2ee_app.SelfTest.Agreement.Counter.{run_s84_check-stricter}
use e2ee_app.SelfTest.Counter.{run_s84_check, s84_last_name}
use e2ee_app.Audit.App.Service.{on_start_re, starts_foreground}
use e2ee_app.Audit.Body.Balanced.{IsBalanced, to_close-block}
use e2ee_app.Audit.Body.{to_close, body_of}
use e2ee_app.Audit.App.{vpn_service_kt}
use e2ee_app.Audit.Comments.{strip_comments}
use e2ee_app.Audit.Literals.{check_whatsapp_deeplink_literal_present, whatsapp_screen}
use e2ee_app.Audit.Needs.{check_each}
use e2ee_app.Audit.Repo.{Repo, content, no_answer}
use e2ee_app.Audit.Strip.Agreement.{strip_plain-strip_comments}
use e2ee_app.Audit.Strip.{strip_plain}
use e2ee_app.Base.{String, ◌++◌, true, ◌≡◌, ◌↔◌, refl, List, [], ◌∷◌, All, here, some, none}
use e2ee_app.Py.Re.{placed, find_iter, group_of, search_from}
use e2ee_app.Py.Text.{Text, codes, one_of, contains, is_space, starts_with}
use e2ee_app.SelfTest.Agreement.Table.{pairs_agree}
use e2ee_app.SelfTest.Agreement.{text_of}
use e2ee_app.SelfTest.Main.Status.{IsOk, main_status_iff}
use e2ee_app.SelfTest.Main.{Case, main}
use e2ee_app.SelfTest.Netty.{run_s105_check}
use e2ee_app.SelfTest.Screens.{run_s26_check}
use e2ee_app.SelfTest.{failed, no_text}

-- Every file holds the same text.
abbrev one_text : Repo
one_text = record {
  file = λ _. content (
      codes
        "fallbackAttemptCount attempt 1/2 lateinit var fallbackRunnable\n checkPrivateDnsAndBindToVpn()\n builder.establish()");
  ls_files = λ _. no_answer;
}

abbrev two_cases : List Case
two_cases =
    record {
      name = codes "a";
      actual = codes "x" ∷ codes "y" ∷ [];
      expected = codes "y" ∷ codes "x" ∷ [];
    }
    ∷ record { name = codes "b"; actual = codes "x" ∷ []; expected = [] }
    ∷ []

-- The order of the findings does not matter, their number does.
two_cases_fail : (main two_cases).1 ≡ 1
unfolding main
two_cases_fail = refl

missing_file_reported : run_s26_check none ≡ no_text ∷ []
unfolding run_s26_check e2ee_app.SelfTest.run_each
missing_file_reported = refl

-- S105 looks for `protect(` behind the first `DatagramSocket` only.
protect_behind : run_s105_check (some (codes "DatagramSocket() // protect(\nprotect(s)")) ≡ []
unfolding run_s105_check e2ee_app.SelfTest.run_each e2ee_app.Py.Text.contains strip_plain
    e2ee_app.Py.Text.find_behind
protect_behind = refl

protect_before :
    run_s105_check (some (codes "protect(s); DatagramSocket()"))
    ≡ failed (codes "missing `protect(` call site AFTER the `DatagramSocket` literal in the" ∷ [])
      ∷ []
unfolding run_s105_check e2ee_app.SelfTest.run_each e2ee_app.Py.Text.contains strip_plain
    e2ee_app.Py.Text.find_behind
protect_before = refl

pairs_agree_example :
    (check_whatsapp_deeplink_literal_present one_text ≡ [])
    ↔ (run_s26_check (text_of (one_text.file whatsapp_screen)) ≡ [])
pairs_agree_example =
    pairs_agree one_text
      (record {
        check = check_whatsapp_deeplink_literal_present;
        copies = λ repo. run_s26_check (text_of (repo.file whatsapp_screen));
      })
      here

main_status_iff_example : ((main two_cases).1 ≡ 0) ↔ All IsOk two_cases
main_status_iff_example = main_status_iff two_cases

check-IsOrdered_example :
    (text : Text) × (one_text.file vpn_service_kt ≡ content text) × IsOrdered text
unfolding check_check_private_dns_call_before_establish_invariant_v41 check_each
    e2ee_app.Py.Text.contains e2ee_app.Py.Text.starts_with e2ee_app.Py.Text.find
    e2ee_app.Py.Text.find_behind
check-IsOrdered_example = check-IsOrdered one_text refl

strip_plain-strip_comments_example : strip_plain (codes "a//b") ≡ strip_comments (codes "a//b")
unfolding e2ee_app.Py.Text.splitlines e2ee_app.Py.Re.erase_re
strip_plain-strip_comments_example =
    strip_plain-strip_comments (codes "a//b") ((refl, (refl, (refl, (refl, tt)))), tt)

-- The code `if (a) { b }`.
abbrev inner_block : Text
inner_block = codes "if (a) { b }"

inner_block-IsBalanced : IsBalanced inner_block
inner_block-IsBalanced = IsBalanced.plain refl refl (
    IsBalanced.plain refl refl (
      IsBalanced.plain refl refl (
        IsBalanced.plain refl refl (
          IsBalanced.plain refl refl (
            IsBalanced.plain refl refl (
              IsBalanced.plain refl refl (
                IsBalanced.block {s = codes " b "}
                  (IsBalanced.plain refl refl
                    (IsBalanced.plain refl refl (IsBalanced.plain refl refl IsBalanced.empty)))
                  IsBalanced.empty)))))))

to_close-block_example : to_close 0 (codes "{if (a) { b }} fun g() { }") ≡ codes "{if (a) { b }}"
to_close-block_example = to_close-block inner_block (codes " fun g() { }") inner_block-IsBalanced

-- A service whose `onStartCommand` calls `startCapture()` before `startForeground(`.
abbrev late_service : Text
late_service =
    codes "override fun onStartCommand(i: Intent): Int { startCapture(); startForeground(1) } }"

late_service_body :
    body_of on_start_re late_service ≡ some (codes "{ startCapture(); startForeground(1) }")
unfolding body_of to_close search_from is_space
late_service_body = refl

-- S74 accepts that body.
late_service_accepted : starts_foreground late_service ≡ true
unfolding body_of to_close search_from is_space contains starts_with
late_service_accepted = refl

-- A service that counts a packet where it reads it, and resets the counter.
abbrev counting : String → Repo
counting reset = record {
  file = λ _. content (
      codes
        "private fun startReaderThread() { extractMetadata(buf); packetsObserved.incrementAndGet() }\n"
      ++ (codes "fun " ++ (codes reset ++ codes "() { packetsObserved.set(0) }")));
  ls_files = λ _. no_answer;
}

check-IsCounted_example :
    (check_vpn_service_packets_observed_increment_invariant_v27 (counting "stopCapture") ≡ []) ↔ (
      (text : Text) × ((counting "stopCapture").file vpn_service_kt ≡ content text)
      × IsCounted session_functions (strip_plain text))
check-IsCounted_example = check-IsCounted (counting "stopCapture")

run_s84_check-stricter_example :
    check_vpn_service_packets_observed_increment_invariant_v27 (counting "startCapture") ≡ []
unfolding run_s84_check placed find_iter strip_plain is_space s84_last_name group_of contains one_of
run_s84_check-stricter_example = run_s84_check-stricter (counting "startCapture") refl

-- A reset in `stopCapture` passes the audit and fails the copy.
stop_capture_accepted :
    check_vpn_service_packets_observed_increment_invariant_v27 (counting "stopCapture") ≡ []
unfolding check_vpn_service_packets_observed_increment_invariant_v27 placed find_iter strip_plain
    is_space name_before group_of contains one_of
stop_capture_accepted = refl

stop_capture_refused :
    run_s84_check (text_of ((counting "stopCapture").file vpn_service_kt))
    ≡ failed (codes "packetsObserved.set( in stopCapture, NOT in startCapture" ∷ []) ∷ []
unfolding run_s84_check placed find_iter strip_plain is_space s84_last_name group_of contains one_of
stop_capture_refused = refl
