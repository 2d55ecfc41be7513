-- ===== src/Tests/OfDex.antt =====
-- The DEX token tools on concrete bytes.
use e2ee_app.Base.{◌≡◌, ◌↔◌, inl, refl, none, some, List, [], ◌∷◌, ◌++◌, arith}
use e2ee_app.Compose.Crash.{Raises}
use e2ee_app.Dex.Apk.Total.{IsVerified, main-Raises, main-IsVerified}
use e2ee_app.Dex.Apk.{Apk, no_apk, extracted, regression_checks, s124_checks}
use e2ee_app.Dex.Strings.{long_pieces, pieces, extract_ascii_strings-pieces}
use e2ee_app.Dex.Tokens.{IsReady, main_iff}
use e2ee_app.Dex
use e2ee_app.Py.Text.{count}
use e2ee_app.Dex.{extract_ascii_strings, Check}
use e2ee_app.Py.Exn.{ok}
use e2ee_app.Py.Text.{Text, codes}

abbrev bytes : Text
bytes = 0 ∷ (codes "abc" ++ 1 ∷ (codes "abcdef" ++ 255 ∷ []))

extracts_long : extract_ascii_strings bytes 6 ≡ codes "abcdef" ∷ []
unfolding extract_ascii_strings
extracts_long = refl

counts_apart : count (codes "aa") (codes "aaa aa") ≡ 2
unfolding e2ee_app.Py.Text.count_from e2ee_app.Py.Text.starts_with
counts_apart = refl

extract_ascii_strings-pieces_example : extract_ascii_strings bytes 6 ≡ long_pieces 6 (pieces bytes)
extract_ascii_strings-pieces_example = extract_ascii_strings-pieces bytes 6 (omega arith)

main_iff_example : (Dex.main (some bytes) (some []) none ≡ ok 0) ↔ IsReady bytes [] none
main_iff_example = main_iff bytes [] none

main-Raises_example : Raises (Dex.Apk.main no_apk (extracted (bytes ∷ []) none))
main-Raises_example = main-Raises no_apk (extracted (bytes ∷ []) none) (inl tt)

-- The tokens of both lists, each behind a byte that ends a string.
abbrev all_tokens : List Check → Text
all_tokens [] = []
all_tokens (c ∷ cs) = c.token ++ 0 ∷ all_tokens cs

abbrev good_apk : Apk
good_apk =
    extracted (all_tokens regression_checks ∷ all_tokens s124_checks ∷ []) (some (codes "12.0F+4"))

main-IsVerified_example : IsVerified good_apk × IsVerified good_apk
unfolding Dex.Apk.main e2ee_app.Py.Text.contains e2ee_app.Py.Text.starts_with
    e2ee_app.Py.Text.count_from
main-IsVerified_example = main-IsVerified good_apk good_apk refl
