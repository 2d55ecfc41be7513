-- ===== src/Audit/Strip.antt =====
-- The comment stripper that most Kotlin and Dart checks of tools/workflow-yaml-audit.py carry in
-- their bodies: the block comments first, then what stands behind `//` outside a string. Unlike
-- `strip_comments` it knows no escapes. Some checks have one of two shorter ones instead.
pub mod Agreement
use e2ee_app.Audit.Comments.{block_comment_re}
use e2ee_app.Base.{Bool, true, false, not, ◌&&◌, List, [], ◌∷◌, map, ◌==◌, if◌then◌else◌}
use e2ee_app.Py.Re.{Re, erase_re, seq, star, lazy, cls, literal, any_char}
use e2ee_app.Py.Text.{Text, codes, starts_with, splitlines, join}

-- The loop over a line.
unfoldable pub cut_plain : Bool → Text → Text
cut_plain in_string [] = []
cut_plain in_string (c ∷ s) =
    let quote = c == b'"' in
    let rest = cut_plain (if quote then not in_string else in_string) s in
    if not quote && (starts_with (codes "//") (c ∷ s) && not in_string) then [] else c ∷ rest

unfoldable pub strip_plain : Text → Text
unfolding cut_plain erase_re splitlines join starts_with
strip_plain text =
    join (codes "\n") (map (cut_plain false) (splitlines (erase_re block_comment_re text)))

abbrev pub line_comment_re : Re
line_comment_re = seq (literal (codes "//")) (star (cls (λ c. not (c == b'\n'))))

-- Two substitutions, which know no strings.
unfoldable pub strip_line_ends : Text → Text
unfolding erase_re
strip_line_ends text = erase_re line_comment_re (erase_re block_comment_re text)

abbrev pub xml_comment_re : Re
xml_comment_re = seq (literal (codes "<!--")) (seq (lazy any_char) (literal (codes "-->")))

unfoldable pub strip_xml : Text → Text
unfolding erase_re
strip_xml text = erase_re xml_comment_re text
