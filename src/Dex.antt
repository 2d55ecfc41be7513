-- ===== src/Dex.antt =====
-- tools/check_dex_tokens.py: the printable strings of a binary, and the tokens counted in them.
-- Bytes are numbers; a failure is its token, its count and the count that is needed.
pub mod Strings
pub mod Tokens
pub mod Apk
use e2ee_app.Base.{
  ℕ, zero, suc, ◌+◌, ◌-◌, Bool, true, false, ◌&&◌, Option, none, some, List, [], ◌∷◌, ◌++◌, length,
  ltb, leb, if◌then◌else◌,
}
use e2ee_app.Py.Exn.{os_error, Result, ok, raise, ◌>>=◌}
use e2ee_app.Py.Text.{Text, codes, contains, join, count}

-- `0x20 <= b < 0x7f`
unfoldable pub is_printable : ℕ → Bool
is_printable b = leb 32 b && ltb b 127

-- `s`, which the inner loop collects, and what is left behind it.
unfoldable pub printable_run : Text → Text
printable_run [] = []
printable_run (c ∷ s) = if is_printable c then c ∷ printable_run s else []

unfoldable pub after_run : Text → Text
after_run [] = []
after_run (c ∷ s) = if is_printable c then after_run s else c ∷ s

-- `strings.append(...)` where the run is long enough.
abbrev pub keep_run : ℕ → Text → List Text → List Text
keep_run min_len run rest = if leb min_len (length run) then run ∷ rest else rest

-- The outer loop. Each round moves on by one byte at least.
unfoldable pub extract_from : ℕ → ℕ → Text → List Text
unfolding printable_run after_run
extract_from zero min_len data' = []
extract_from (suc fuel) min_len [] = []
extract_from (suc fuel) min_len (c ∷ s) =
    let rest = extract_from fuel min_len (if is_printable c then after_run (c ∷ s) else s) in
    if is_printable c then keep_run min_len (printable_run (c ∷ s)) rest else rest

unfoldable pub extract_ascii_strings : Text → ℕ → List Text
unfolding extract_from is_printable
extract_ascii_strings data' min_len = extract_from (length data') min_len data'

-- A token, the count that is needed, and whether the disassembly is searched.
pub record Check : Type 0 where
  pub token : Text
  pub min_count : ℕ
  pub in_dexdis : Bool

abbrev pub in_strings : Text → Check
in_strings token = record { token = token; min_count = 1; in_dexdis = false }

abbrev pub in_disassembly : Text → ℕ → Check
in_disassembly token n = record { token = token; min_count = n; in_dexdis = true }

abbrev pub s121_breadcrumbs : List Check
s121_breadcrumbs =
    in_strings (codes "handleTcpPacket: dispatching flags=0x")
    ∷ in_strings (codes "buildVpnBuilder: allowedApps=")
    ∷ in_strings (codes "checkPrivateDnsAndBindToVpn")
    ∷ []

abbrev pub s122_checks : List Check
s122_checks =
    in_strings (codes "writeTcpRstToTun")
    ∷ in_disassembly (codes "writeTcpRstToTun") 5
    ∷ in_strings (codes "writeTcpRstToTun: dispatching RST")
    ∷ in_strings (codes "kernel-bypass recovery")
    ∷ in_strings (codes "OpenE2eeVpn")
    ∷ in_strings (codes "TcpForwarder")
    ∷ in_strings (codes "UdpForwarder")
    ∷ in_strings (codes "NettyChannelClient")
    ∷ []

abbrev pub s123_checks : List Check
s123_checks =
    in_strings (codes "rebindProcessToNetworkWithRetry")
    ∷ in_disassembly (codes "rebindProcessToNetworkWithRetry") 2
    ∷ in_strings (codes "rebindProcessToNetworkWithRetry: starting")
    ∷ in_strings (codes "rebindProcessToNetworkWithRetry: 1s elapsed")
    ∷ in_strings (codes "rebindProcessToNetworkWithRetry: 3s elapsed")
    ∷ in_strings (codes "vpnRoutingState: starting ip rule")
    ∷ in_strings (codes "vpnRoutingState: ip rule")
    ∷ in_strings (codes "vpnRoutingState: ip route")
    ∷ in_strings (codes "vpnRoutingState: ip addr show tun0")
    ∷ in_strings (codes "DEBUG_MODE all traffic")
    ∷ []

abbrev pub Failure : Type 0
Failure = Text × ℕ × ℕ

-- `passes` and `failures`.
pub record Tally : Type 0 where
  pub passes : ℕ
  pub failures : List Failure

abbrev pub no_tally : Tally
no_tally = record { passes = 0; failures = [] }

-- The count of a check, in the one text or the other.
unfoldable pub count_of : Text → Text → Check → ℕ
count_of strings dexdump c = count c.token (if c.in_dexdis then dexdump else strings)

-- The body of the three loops.
abbrev pub run_check : Text → Text → Check → Tally → Tally
run_check strings dexdump c t =
    let n = count_of strings dexdump c in
    if leb c.min_count n
    then record t { passes = t.passes + 1 }
    else record t { failures = t.failures ++ (c.token, n, c.min_count) ∷ [] }

unfoldable pub run_checks : Text → Text → List Check → Tally → Tally
unfolding count_of
run_checks strings dexdump [] t = t
run_checks strings dexdump (c ∷ cs) t =
    run_checks strings dexdump cs (run_check strings dexdump c t)

-- The version in the strings of libapp.so.
abbrev pub check_version : Text → Text → Tally → Tally
check_version version lib_strings t =
    if contains version lib_strings
    then record t { passes = t.passes + 1 }
    else record t { failures = t.failures ++ (version, 0, 1) ∷ [] }

-- `"\n".join(extract_ascii_strings(...))` of a file that may be missing.
unfoldable pub strings_of_lib : Option Text → Text
unfolding extract_ascii_strings join
strings_of_lib none = []
strings_of_lib (some bytes) = join (codes "\n") (extract_ascii_strings bytes 4)

unfoldable pub run_all : Text → Text → Option Text → Tally
unfolding strings_of_lib run_checks
run_all dex_data dexdump lib =
    let strings = join (codes "\n") (extract_ascii_strings dex_data 6) in
    check_version (codes "12.0F+3") (strings_of_lib lib) (
      run_checks strings dexdump s123_checks (
        run_checks strings dexdump s122_checks
          (run_checks strings dexdump s121_breadcrumbs no_tally)))

-- The exit status.
abbrev pub exit_status : List Failure → ℕ
exit_status [] = 0
exit_status (_ ∷ _) = 1

abbrev pub conclude : Tally → ℕ
conclude t = exit_status t.failures

-- `main`, from the DEX file and its disassembly, which must be there, and libapp.so.
unfoldable pub main : Option Text → Option Text → Option Text → Result ℕ
unfolding run_all
main none dexdis lib = raise os_error
main (some dex) none lib = raise os_error
main (some dex) (some dexdis) lib = ok (conclude (run_all dex dexdis lib))
