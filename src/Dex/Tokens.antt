-- ===== src/Dex/Tokens.antt =====
-- When the token checks pass.
use e2ee_app.Base.{
  ℕ, ◌≡◌, ◌↔◌, refl, ap, inl, inr, true, Option, some, List, [], ◌∷◌, ◌++◌, leb, All, Bool-cases,
  arith,
}
use e2ee_app.Dex.{
  Check, Failure, Tally, no_tally, count_of, run_check, run_checks, check_version, strings_of_lib,
  exit_status, run_all, main, extract_ascii_strings, s121_breadcrumbs, s122_checks, s123_checks,
}
use e2ee_app.Py.Exn.{ok}
use e2ee_app.Py.Text.{Text, codes, contains, join}

-- The token is counted often enough.
abbrev pub IsCounted : Text → Text → Check → Type 0
IsCounted strings dexdump c = leb c.min_count (count_of strings dexdump c) ≡ true

snoc-ne-nil {ℓ} : {A : Type ℓ} (xs : List A) (x : A) → xs ++ x ∷ [] ≡ [] → ⊥
snoc-ne-nil [] x h = cc
snoc-ne-nil (y ∷ ys) x h = cc

run_check-nil :
    (strings dexdump : Text) (c : Check) (t : Tally)
    → (run_check strings dexdump c t).failures ≡ []
    → (t.failures ≡ []) × IsCounted strings dexdump c
run_check-nil strings dexdump c t h =
    elim (Bool-cases (leb c.min_count (count_of strings dexdump c))) [
      | inl e ↦ (rw e at h, e)
      | inr e ↦ absurd (snoc-ne-nil t.failures _ (rw e at h))
    ]

pub run_checks-nil :
    (strings dexdump : Text) (cs : List Check) (t : Tally)
    → (run_checks strings dexdump cs t).failures ≡ []
    → (t.failures ≡ []) × All (IsCounted strings dexdump) cs
unfolding run_checks
run_checks-nil strings dexdump [] t h = (h, tt)
run_checks-nil strings dexdump (c ∷ cs) t h =
    let (before, all) = run_checks-nil strings dexdump cs (run_check strings dexdump c t) h in
    let (first, found) = run_check-nil strings dexdump c t before in (first, (found, all))

run_checks-All :
    (strings dexdump : Text) (cs : List Check) (t : Tally)
    → t.failures ≡ []
    → All (IsCounted strings dexdump) cs
    → (run_checks strings dexdump cs t).failures ≡ []
unfolding run_checks
run_checks-All strings dexdump [] t h all = h
run_checks-All strings dexdump (c ∷ cs) t h (found, all) =
    run_checks-All strings dexdump cs (run_check strings dexdump c t) (rw found h) all

pub check_version-nil :
    (version lib_strings : Text) (t : Tally)
    → (check_version version lib_strings t).failures ≡ []
    → (t.failures ≡ []) × (contains version lib_strings ≡ true)
check_version-nil version lib_strings t h = elim (Bool-cases (contains version lib_strings)) [
  | inl e ↦ (rw e at h, e)
  | inr e ↦ absurd (snoc-ne-nil t.failures _ (rw e at h))
]

check_version_found :
    (version lib_strings : Text) (t : Tally)
    → t.failures ≡ []
    → contains version lib_strings ≡ true
    → (check_version version lib_strings t).failures ≡ []
check_version_found version lib_strings t h e = rw e h

exit_status-nil : (fs : List Failure) → exit_status fs ≡ 0 → fs ≡ []
exit_status-nil [] h = refl
exit_status-nil (f ∷ fs) h = absurd (omega (arith, h))

-- Every token of the three lists is counted often enough, and the version is in libapp.so.
pub record IsReady (dex dexdump : Text) (lib : Option Text) : Type 0 where
  pub breadcrumbs :
      All (IsCounted (join (codes "\n") (extract_ascii_strings dex 6)) dexdump) s121_breadcrumbs
  pub workaround :
      All (IsCounted (join (codes "\n") (extract_ascii_strings dex 6)) dexdump) s122_checks
  pub routing :
      All (IsCounted (join (codes "\n") (extract_ascii_strings dex 6)) dexdump) s123_checks
  pub version : contains (codes "12.0F+3") (strings_of_lib lib) ≡ true

-- The tool ends with status 0 exactly where every token of its three lists is counted often
-- enough, in the strings of the DEX file or in the disassembly, and libapp.so has the version.
pub main_iff :
    (dex dexdump : Text) (lib : Option Text)
    → (main (some dex) (some dexdump) lib ≡ ok 0) ↔ IsReady dex dexdump lib
unfolding main run_all
main_iff dex dexdump lib =
    let strings = join (codes "\n") (extract_ascii_strings dex 6) in
    let t1 = run_checks strings dexdump s121_breadcrumbs no_tally in
    let t2 = run_checks strings dexdump s122_checks t1 in
    let t3 = run_checks strings dexdump s123_checks t2 in
    (
      λ h.
          let (h3, v) = check_version-nil (codes "12.0F+3") (strings_of_lib lib) t3 (
            exit_status-nil (check_version (codes "12.0F+3") (strings_of_lib lib) t3).failures
              (ok_zero h)) in
          let (h2, c) = run_checks-nil strings dexdump s123_checks t2 h3 in
          let (h1, b) = run_checks-nil strings dexdump s122_checks t1 h2 in
          record {
            breadcrumbs = (run_checks-nil strings dexdump s121_breadcrumbs no_tally h1).1;
            workaround = b;
            routing = c;
            version = v;
          },
      λ r.
          ap (λ fs. ok (exit_status fs))
            (check_version_found (codes "12.0F+3") (strings_of_lib lib) t3
              (run_checks-All strings dexdump s123_checks t2
                (run_checks-All strings dexdump s122_checks t1
                  (run_checks-All strings dexdump s121_breadcrumbs no_tally refl r.breadcrumbs)
                  r.workaround)
                r.routing)
              r.version),
    )
  where
    ok_zero : {n : ℕ} → ok n ≡ ok 0 → n ≡ 0
    ok_zero h = cc
