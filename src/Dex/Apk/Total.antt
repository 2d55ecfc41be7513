-- ===== src/Dex/Apk/Total.antt =====
-- How the check of the two APKs ends.
use e2ee_app.Base.{
  ℕ, ◌+◌, ◌≡◌, ◌⊎◌, refl, ap, ◌∙◌, inl, inr, true, List, [], ◌∷◌, length, All, Bool-cases, ◌==◌,
  ==_iff, arith,
}
use e2ee_app.Compose.Crash.{Raises, Raises-head, Raises-tail}
use e2ee_app.Dex.Apk.{
  Apk, no_apk, extracted, run_apk, verify_apk, unpack, total_status, main, all_strings,
  regression_checks, s124_checks,
}
use e2ee_app.Dex.Tokens.{IsCounted, run_checks-nil, check_version-nil}
use e2ee_app.Dex.{Failure, no_tally, run_checks, check_version, strings_of_lib}
use e2ee_app.Py.Text.{codes, contains, join}
use e2ee_app.Py.Exn.{ok, ◌>>=◌, >>=-eq-ok}

-- There is no APK, or it holds no DEX file.
abbrev pub IsEmptyApk : Apk → Type 0
IsEmptyApk no_apk = Unit
IsEmptyApk (extracted [] lib) = Unit
IsEmptyApk (extracted (_ ∷ _) lib) = ⊥

unpack-Raises : (a : Apk) → IsEmptyApk a → Raises (unpack (verify_apk a))
unfolding unpack verify_apk
unpack-Raises no_apk h = (_, refl)
unpack-Raises (extracted [] lib) h = (_, refl)
unpack-Raises (extracted (_ ∷ _) lib) h = absurd h

-- Where one of the APKs is missing or holds no DEX file, the run stops with an exception when the
-- pair that `verify_apk` returns is unpacked into three names; no total is reported.
pub main-Raises :
    (debug release : Apk) → IsEmptyApk debug ⊎ IsEmptyApk release → Raises (main debug release)
unfolding main
main-Raises debug release (inl h) =
    Raises-head (unpack (verify_apk debug)) _ (unpack-Raises debug h)
main-Raises debug release (inr h) =
    Raises-tail (unpack (verify_apk debug)) _
      (λ f1. Raises-head (unpack (verify_apk release)) _ (unpack-Raises release h))

-- An APK with a DEX file, in which every token is found, and the version in libapp.so.
abbrev pub IsVerified : Apk → Type 0
IsVerified no_apk = ⊥
IsVerified (extracted [] lib) = ⊥
IsVerified (extracted (dex ∷ files) lib) =
    let strings = join (codes "\n") (all_strings (dex ∷ files)) in
    All (IsCounted strings []) regression_checks
    × All (IsCounted strings []) s124_checks
    × (contains (codes "12.0F+4") (strings_of_lib lib) ≡ true)

ok_inner : {m n : ℕ} → ok m ≡ ok n → m ≡ n
ok_inner h = cc

length-eq-zero : (fs : List Failure) → length fs ≡ 0 → fs ≡ []
length-eq-zero [] h = refl
length-eq-zero (f ∷ fs) h = absurd (omega (arith, h))

unpack-eq-zero : (a : Apk) → unpack (verify_apk a) ≡ ok 0 → IsVerified a
unfolding unpack verify_apk run_apk
unpack-eq-zero no_apk h = cc
unpack-eq-zero (extracted [] lib) h = cc
unpack-eq-zero (extracted (dex ∷ files) lib) h =
    let strings = join (codes "\n") (all_strings (dex ∷ files)) in
    let t1 = run_checks strings [] regression_checks no_tally in
    let t2 = run_checks strings [] s124_checks t1 in
    let (h2, v) = check_version-nil (codes "12.0F+4") (strings_of_lib lib) t2 (
      length-eq-zero (check_version (codes "12.0F+4") (strings_of_lib lib) t2).failures
        (ok_inner h)) in
    let (h1, s) = run_checks-nil strings [] s124_checks t1 h2 in
    ((run_checks-nil strings [] regression_checks no_tally h1).1, s, v)

total_zero : (m n : ℕ) → ok (total_status m n) ≡ ok 0 → (m ≡ 0) × (n ≡ 0)
total_zero m n h = elim (Bool-cases (m + n == 0)) [
  | inl e ↦ (omega (arith, (==_iff (m + n) 0).0 e), omega (arith, (==_iff (m + n) 0).0 e))
  | inr e ↦ absurd (omega (arith, ok_inner (rw e at h)))
]

-- Status 0 means that both APKs were there with a DEX file, that every token of both lists is in
-- the strings of their DEX files, and that both libapp.so have the version.
pub main-IsVerified :
    (debug release : Apk) → main debug release ≡ ok 0 → IsVerified debug × IsVerified release
unfolding main
main-IsVerified debug release h =
    let (m, d, more) =
      >>=-eq-ok (unpack (verify_apk debug))
        (λ m. do n ← unpack (verify_apk release); ok (total_status m n)) h in
    let (n, r, done) = >>=-eq-ok (unpack (verify_apk release)) (λ n. ok (total_status m n)) more in
    let (m0, n0) = total_zero m n done in
    (unpack-eq-zero debug (d ∙ ap ok m0), unpack-eq-zero release (r ∙ ap ok n0))
