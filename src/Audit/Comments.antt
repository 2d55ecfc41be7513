-- ===== src/Audit/Comments.antt =====
-- `strip_comments` of tools/workflow-yaml-audit.py, on Gradle and Kotlin text.
pub mod Laws
use e2ee_app.Base.{Bool, true, false, not, ◌&&◌, List, [], ◌∷◌, map, ◌==◌, if◌then◌else◌}
use e2ee_app.Py.Re.{Re, seq, lazy, literal, any_char, erase_re}
use e2ee_app.Py.Text.{Text, codes, starts_with, splitlines, join}

-- `/\*[\s\S]*?\*/`
abbrev pub block_comment_re : Re
block_comment_re = seq (literal (codes "/*")) (seq (lazy any_char) (literal (codes "*/")))

-- A `//` begins here, outside a string and not behind a backslash.
abbrev pub is_comment : Bool → Bool → Text → Bool
is_comment in_string escape line = not escape && (not in_string && starts_with (codes "//") line)

-- `in_string` and `escape` behind a character.
abbrev pub next_string : Bool → Bool → Bool → Bool
next_string in_string escape is_quote = if not escape && is_quote then not in_string else in_string

abbrev pub next_escape : Bool → Bool → Bool
next_escape escape is_backslash = not escape && is_backslash

-- The line up to its comment.
unfoldable pub cut_line : Bool → Bool → Text → Text
cut_line in_string escape [] = []
cut_line in_string escape (c ∷ s) =
    let rest =
      cut_line (next_string in_string escape (c == b'"')) (next_escape escape (c == b'\\')) s in
    if is_comment in_string escape (c ∷ s) then [] else c ∷ rest

unfoldable pub strip_comments : Text → Text
unfolding cut_line erase_re splitlines join starts_with
strip_comments text =
    join (codes "\n") (map (cut_line false false) (splitlines (erase_re block_comment_re text)))
