-- ===== src/Tests/OfScanner.antt =====
-- tools/lib/scanner.py on concrete lines.
use e2ee_app.Base.{some, ◌+◌, ◌≡◌, refl, true, false, [], ◌∷◌, length, All, In, here, arith}
use e2ee_app.Py.Re.{split_re}
use e2ee_app.Py.Text.{Text, contains, codes, split, strip, one_of}
use e2ee_app.Scanner.Command.{Files, main, main-written}
use e2ee_app.Scanner.Lines.{
  AreStripped, IsPart, strip_comments_line-IsPart, strip_file-lines, strip_comments_line_plain,
}
use e2ee_app.Scanner.Matches.{IsReport, match_file-IsReport, match_file_complete}
use e2ee_app.Scanner.State.{
  IsExclusive, strip_comments_line-IsExclusive, strip_from-strip_comments_line,
}
use e2ee_app.Scanner.{
  line_comment, Blocks, outside, strip_from, strip_comments_line, strip_lines, strip_file,
  is_separator, base_name, match_tokens, match_lines, match_file,
}

abbrev nested : Text
nested = codes "jq /* a <# b"

abbrev in_comment : Blocks
in_comment = record { in_c = true; in_pwsh = false; in_xml = false }

abbrev script : Text
script = codes "# curl x\n\t/usr/bin/jq . | wget\n"

opens_c : strip_comments_line nested outside ≡ (codes "jq ", in_comment)
unfolding strip_comments_line
opens_c = refl

strips_script : (strip_file script).0 ≡ codes "\n\t/usr/bin/jq . | wget\n"
unfolding strip_file
strips_script = refl

matches_script : match_file script ≡ (2, codes "jq") ∷ (2, codes "wget") ∷ []
unfolding match_file match_lines match_tokens strip_lines strip_comments_line split_re split
    base_name strip one_of is_separator
matches_script = refl

-- The mark `//` behind code is no comment.
keeps_trailing : (strip_comments_line (codes "jq // x") outside).0 ≡ codes "jq // x"
unfolding strip_comments_line
keeps_trailing = refl

strip_comments_line-IsExclusive_example : IsExclusive (strip_comments_line nested outside).1
strip_comments_line-IsExclusive_example =
    strip_comments_line-IsExclusive nested outside (refl, refl, refl)

strip_from-strip_comments_line_example :
    strip_from 40 true nested outside ≡ strip_comments_line nested outside
strip_from-strip_comments_line_example =
    strip_from-strip_comments_line 40 nested outside (omega arith)

strip_comments_line-IsPart_example : IsPart (strip_comments_line nested outside).0 nested
strip_comments_line-IsPart_example = strip_comments_line-IsPart nested outside

strip_file-lines_example :
    AreStripped outside (split b'\n' script) (split b'\n' (strip_file script).0)
    × ((strip_file script).1 ≡ length (split b'\n' script))
strip_file-lines_example = strip_file-lines script

match_file-IsReport_example : All (IsReport 1 (1 + length (split b'\n' script))) (match_file script)
match_file-IsReport_example = match_file-IsReport script

match_file_complete_example : In (2, codes "wget") (match_file (codes "\nwget"))
unfolding strip_lines strip_comments_line split_re split base_name strip one_of is_separator
match_file_complete_example =
    match_file_complete (codes "\nwget") 1 (codes "wget") (codes "wget") refl refl here refl refl

abbrev one_file : Files
one_file path = some script

main-written_example :
    (i : Text) × (text : Text) × (codes "strip" ∷ codes "a" ∷ codes "b" ∷ []
      ≡ codes "strip" ∷ i ∷ codes "b" ∷ [])
    × (one_file i ≡ some text)
    × (codes "\n\t/usr/bin/jq . | wget\n" ≡ (strip_file text).0)
unfolding main
main-written_example =
    main-written one_file (codes "strip" ∷ codes "a" ∷ codes "b" ∷ [])
      (codes "b", codes "\n\t/usr/bin/jq . | wget\n") refl

strip_comments_line_plain_example :
    strip_comments_line (codes "jq . | wget") outside ≡ (codes "jq . | wget", outside)
unfolding line_comment contains
strip_comments_line_plain_example =
    strip_comments_line_plain (codes "jq . | wget") refl refl refl refl
