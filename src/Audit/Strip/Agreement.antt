-- ===== src/Audit/Strip/Agreement.antt =====
-- Where the two strippers agree.
use e2ee_app.Audit.Comments.{block_comment_re, cut_line, strip_comments}
use e2ee_app.Audit.Strip.{cut_plain, strip_plain}
use e2ee_app.Base.{◌≡◌, refl, ap, Bool, false, not, List, [], ◌∷◌, map, ◌==◌, All, arith}
use e2ee_app.Py.Re.{erase_re}
use e2ee_app.Py.Text.{Text, codes, starts_with, splitlines, join}

-- No character of the line is a backslash.
abbrev pub IsUnescaped : Text → Type 0
IsUnescaped = All (λ c. (c == b'\\') ≡ false)

cut_plain-cut_line :
    (s : Bool) (line : Text) → IsUnescaped line → cut_plain s line ≡ cut_line s false line
unfolding cut_plain cut_line starts_with
cut_plain-cut_line s [] h = refl
cut_plain-cut_line s (c ∷ line) (n, h) =
    ground (arith, n, cut_plain-cut_line (not s) line h, cut_plain-cut_line s line h)

map_cut :
    (lines : List Text)
    → All IsUnescaped lines
    → map (cut_plain false) lines ≡ map (cut_line false false) lines
map_cut [] h = refl
map_cut (line ∷ lines) (l, h) = rw (cut_plain-cut_line false line l, map_cut lines h)

-- Where no line behind the block comments holds a backslash, the stripper in the checks' bodies
-- and the shared `strip_comments` leave the same text.
pub strip_plain-strip_comments :
    (text : Text)
    → All IsUnescaped (splitlines (erase_re block_comment_re text))
    → strip_plain text ≡ strip_comments text
unfolding strip_plain strip_comments
strip_plain-strip_comments text h =
    ap (join (codes "\n")) (map_cut (splitlines (erase_re block_comment_re text)) h)
