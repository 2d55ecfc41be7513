-- ===== src/Audit/Versions/Wrapper.antt =====
-- The Gradle wrapper check on a well-formed `distributionUrl`, for every version number.
use e2ee_app.Audit.Repo.{content, Repo, version_low}
use e2ee_app.Audit.Versions.{
  version_lt, flutter_min_gradle, gradle_re, version_of, judge_version, check_version,
  gradle_props_path, check_gradle_wrapper_version,
}
use e2ee_app.Base.{
  ℕ, suc, ◌≡◌, ◌≢◌, refl, true, false, Option, none, some, List, [], ◌∷◌, ◌++◌, length,
  length-append, All, if◌then◌else◌, arith,
}
use e2ee_app.Py.Exn.{ok}
use e2ee_app.Py.Re.Laws.{
  place, last_of, consumed-append, star_run, match_at-eq-some, first_at, search_literal,
}
use e2ee_app.Py.Re.{
  Re, seq, group, literal, char, opt, plus, digit, Pos, match, step_class, consumed, search_re,
  group_of,
}
use e2ee_app.Py.Text.Decimal.{parse_int-decimal, decimal-IsDigits, decimal-ne-nil}
use e2ee_app.Py.Text.{Text, codes, decimal, is_digit, parse_int}

abbrev Groups : Type 0
Groups = List (ℕ × Text)

-- `(\d+)` in front of a character that is no digit.
digits_match :
    (n d : ℕ) (w r : Text) (prev : Option ℕ) (g : Groups) (k : Pos → Option Pos) {e : Pos}
    → w ≢ []
    → All (λ c. is_digit c ≡ true) w
    → is_digit d ≡ false
    → k (place (last_of prev w) (d ∷ r) ((n, w) ∷ g)) ≡ some e
    → match (group n (plus digit)) (place prev (w ++ d ∷ r) g) k ≡ some e
unfolding match step_class
digits_match n d [] r prev g k ne h out next = absurd (ne refl)
digits_match n d (c ∷ w) r prev g k ne h out next = rw h.0 (
    star_run is_digit w r d (suc (length (w ++ d ∷ r))) (some c) g _ h.1 out
      (omega (arith, length-append w (d ∷ r))) (rw (consumed-append (c ∷ w) (d ∷ r)) next))

-- `gradle-X.Y-bin.zip`
abbrev pub archive : Text → Text → Text → Text
archive x y post = codes "gradle-" ++ (x ++ (b'.' ∷ (y ++ (codes "-bin.zip" ++ post))))

abbrev ending : Re
ending = seq (opt (literal (codes "-bin"))) (literal (codes ".zip"))

abbrev minor : Re
minor = seq (char b'.') (seq (group 2 (plus digit)) ending)

abbrev whole : Pos → Option Pos
whole s = some s

ending-match :
    (post : Text) (prev : Option ℕ) (g : Groups)
    → match ending (place prev (codes "-bin.zip" ++ post) g) whole ≡ some (place (some b'p') post g)
unfolding match step_class
ending-match post prev g = refl

digit_dot : is_digit b'.' ≡ false
unfolding is_digit
digit_dot = refl

digit_dash : is_digit b'-' ≡ false
unfolding is_digit
digit_dash = refl

match-archive :
    (x y post : Text) (prev : Option ℕ)
    → x ≢ []
    → All (λ c. is_digit c ≡ true) x
    → y ≢ []
    → All (λ c. is_digit c ≡ true) y
    → match gradle_re (place prev (archive x y post) []) whole
      ≡ some (place (some b'p') post ((2, y) ∷ (1, x) ∷ []))
unfolding match step_class
match-archive x y post prev nx hx ny hy =
    digits_match 1 b'.' x (y ++ (codes "-bin.zip" ++ post)) (some b'-') []
      (λ s. match minor s whole) nx hx digit_dot
      (digits_match 2 b'-' y (codes "bin.zip" ++ post) (some b'.') ((1, x) ∷ [])
        (λ s. match ending s whole) ny hy digit_dash
        (ending-match post (last_of (some b'.') y) ((2, y) ∷ (1, x) ∷ [])))

search_archive :
    (pre x y post : Text)
    → first_at (codes "gradle-") pre (archive x y post) ≡ true
    → x ≢ []
    → All (λ c. is_digit c ≡ true) x
    → y ≢ []
    → All (λ c. is_digit c ≡ true) y
    → search_re gradle_re (pre ++ archive x y post)
      ≡ some (record {
        skipped = pre ++ [];
        matched = consumed (archive x y post) post;
        after = place (some b'p') post ((2, y) ∷ (1, x) ∷ []);
      })
search_archive pre x y post first nx hx ny hy =
    search_literal (codes "gradle-") _ pre (archive x y post) none first
      (match_at-eq-some gradle_re _ (archive x y post) (match-archive x y post _ nx hx ny hy))

groups_version :
    (skipped matched rest x y : Text) (prev : Option ℕ)
    → version_of (record {
      skipped = skipped;
      matched = matched;
      after = place prev rest ((2, y) ∷ (1, x) ∷ []);
    })
      ≡ (parse_int x, parse_int y)
unfolding version_of group_of
groups_version skipped matched rest x y prev = refl

-- For every version `M.N` in the wrapper's `gradle-M.N-bin.zip`, at the first `gradle-` of the
-- file, the check reports that version if it is below 8.7 as a pair of numbers, and nothing
-- otherwise: 8.10 is enough.
pub check_gradle_wrapper_version-archive :
    (repo : Repo) (pre post : Text) (major minor : ℕ)
    → repo.file gradle_props_path ≡ content (pre ++ archive (decimal major) (decimal minor) post)
    → first_at (codes "gradle-") pre (archive (decimal major) (decimal minor) post) ≡ true
    → check_gradle_wrapper_version repo
      ≡ ok (
          if version_lt (major, minor) flutter_min_gradle
          then version_low (codes "gradle-wrapper.properties") (major, minor) flutter_min_gradle
            ∷ []
          else [])
unfolding check_gradle_wrapper_version check_version judge_version
check_gradle_wrapper_version-archive repo pre post major minor file first = rw (
  file,
  search_archive pre (decimal major) (decimal minor) post first (decimal-ne-nil major)
      (decimal-IsDigits major) (decimal-ne-nil minor) (decimal-IsDigits minor),
  groups_version,
  parse_int-decimal major,
  parse_int-decimal minor,
)
