-- ===== src/Dex/Apk.antt =====
-- tools/check_dex_tokens_12fplus4.py: the same checks on two APKs.
-- Its `extract_ascii_strings` is the other tool's.
pub mod Total
use e2ee_app.Base.{ℕ, ◌+◌, ◌==◌, Option, none, some, List, [], ◌∷◌, ◌++◌, length, if◌then◌else◌}
use e2ee_app.Dex.{
  Check, in_strings, Failure, Tally, no_tally, run_checks, check_version, strings_of_lib,
  extract_ascii_strings,
}
use e2ee_app.Py.Exn.{value_error, Result, ok, raise, ◌>>=◌}
use e2ee_app.Py.Text.{Text, codes, join}

-- The path of an APK: it is not there, or holds DEX files, in the order of their names, and
-- perhaps libapp.so.
pub data Apk : Type 0 where
  no_apk : Apk
  extracted : List Text → Option Text → Apk

abbrev pub regression_checks : List Check
regression_checks =
    in_strings (codes "handleTcpPacket: dispatching flags=0x")
    ∷ in_strings (codes "writeTcpRstToTun: dispatching RST")
    ∷ in_strings (codes "vpnRoutingState: ip route")
    ∷ in_strings (codes "OpenE2eeVpn")
    ∷ in_strings (codes "MainActivity")
    ∷ []

abbrev pub s124_checks : List Check
s124_checks =
    in_strings (codes "onMethodCall: received method=")
    ∷ in_strings (codes "attachFlutterEngine: ENTER, prev")
    ∷ in_strings (codes "onMethodCall: 'start' branch ENTERED")
    ∷ in_strings (codes "onMethodCall: 'stop' branch ENTERED")
    ∷ in_strings (codes "onMethodCall: unknown method=")
    ∷ in_strings (codes "configureFlutterEngine: ENTER")
    ∷ in_strings (codes "configureFlutterEngine: DONE")
    ∷ in_strings (codes "MethodChannel handler: received method=")
    ∷ []

-- The strings of all DEX files.
abbrev pub all_strings : List Text → List Text
all_strings [] = []
all_strings (dex ∷ files) = extract_ascii_strings dex 6 ++ all_strings files

unfoldable pub run_apk : List Text → Option Text → Tally
unfolding run_checks strings_of_lib extract_ascii_strings
run_apk files lib =
    let strings = join (codes "\n") (all_strings files) in
    check_version (codes "12.0F+4") (strings_of_lib lib)
      (run_checks strings [] s124_checks (run_checks strings [] regression_checks no_tally))

-- The tuple that `verify_apk` returns: two numbers on an early return, and else the failures too.
pub data Verified : Type 0 where
  two : ℕ → ℕ → Verified
  three : ℕ → ℕ → List Failure → Verified

unfoldable pub verify_apk : Apk → Verified
unfolding run_apk
verify_apk no_apk = two 0 1
verify_apk (extracted [] lib) = two 0 1
verify_apk (extracted (dex ∷ files) lib) =
    let t = run_apk (dex ∷ files) lib in three t.passes (length t.failures) t.failures

-- `p, f, fs = verify_apk(...)`, of which the number of failures is kept.
unfoldable pub unpack : Verified → Result ℕ
unpack (two _ _) = raise (value_error (codes "not enough values to unpack (expected 3, got 2)"))
unpack (three _ f _) = ok f

-- The exit status, from the two numbers of failures.
abbrev pub total_status : ℕ → ℕ → ℕ
total_status f1 f2 = if f1 + f2 == 0 then 0 else 1

-- `main`, on the debug and the release APK.
unfoldable pub main : Apk → Apk → Result ℕ
unfolding verify_apk unpack
main debug release = do
  f1 ← unpack (verify_apk debug)
  f2 ← unpack (verify_apk release)
  ok (total_status f1 f2)
