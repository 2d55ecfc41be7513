-- ===== src/Scanner.antt =====
-- tools/lib/scanner.py: comment stripping, and the token match for the pinned tools.
-- A file is its decoded text.
pub mod Command
pub mod State
pub mod Lines
pub mod Matches
use e2ee_app.Base.{
  ℕ, zero, suc, ◌+◌, Bool, true, false, not, ◌||◌, Option, none, some, List, [], ◌∷◌, ◌++◌, map,
  is_nil, length, drop, ◌==◌, if◌then◌else◌,
}
use e2ee_app.Py.Re.{Re, cls, plus, split_re}
use e2ee_app.Py.Text.{
  Text, codes, text_eq, one_of, starts_with, is_space, lstrip, strip, split, join, decimal,
}

-- `in_block_c`, `in_block_pwsh` and `in_block_xml`.
pub record Blocks : Type 0 where
  pub in_c : Bool
  pub in_pwsh : Bool
  pub in_xml : Bool

abbrev pub outside : Blocks
outside = record { in_c = false; in_pwsh = false; in_xml = false }

abbrev pub leading_space : Text → Text
leading_space [] = []
leading_space (c ∷ s) = if is_space c then c ∷ leading_space s else []

-- `re.match(r'^(\s*)#', line)`, then the same for `//`: the white space in front of the mark.
unfoldable pub line_comment : Text → Option Text
unfolding is_space lstrip starts_with
line_comment line =
    let body = lstrip line in
    if starts_with (codes "#") body
    then some (leading_space line)
    else if starts_with (codes "//") body
    then some (leading_space line)
    else none

-- The characters written so far, and the state behind them.
abbrev pub Stripped : Type 0
Stripped = Text × Blocks

-- What the loop does from a place on; the flag is `i == 0`.
abbrev pub Loop : Type 0
Loop = Bool → Text → Blocks → Stripped

-- `out.append(line[i])`, and on.
abbrev pub emit : Loop → Text → Blocks → Stripped
emit go [] b = ([], b)
emit go (c ∷ s) b = let r = go false s b in (c ∷ r.0, r.1)

-- The body of the loop outside every block.
unfoldable pub step_code : Loop → Bool → Text → Blocks → Stripped
step_code go first line b =
    if starts_with (codes "/*") line
    then go false (drop 2 line) (record b { in_c = true })
    else if starts_with (codes "<#") line
    then go false (drop 2 line) (record b { in_pwsh = true })
    else if starts_with (codes "<!--") line
    then go false (drop 4 line) (record b { in_xml = true })
    else if first
    then elim (line_comment line) [ some white ↦ (white, b) | none ↦ emit go line b ]
    else emit go line b

-- The body of the loop inside a block that ends at `close`; `left` is the state behind it.
unfoldable pub step_block : Loop → Text → Text → Blocks → Blocks → Stripped
step_block go close line b left =
    if starts_with close line
    then go false (drop (length close) line) left
    else go false (drop 1 line) b

-- The body of the loop, by the state.
unfoldable pub step : Loop → Bool → Text → Blocks → Stripped
unfolding step_code step_block
step go first line b =
    if not (b.in_c || b.in_pwsh || b.in_xml)
    then step_code go first line b
    else if b.in_c
    then step_block go (codes "*/") line b (record b { in_c = false })
    else if b.in_pwsh
    then step_block go (codes "#>") line b (record b { in_pwsh = false })
    else step_block go (codes "-->") line b (record b { in_xml = false })

-- The loop. Each round moves on by one character at least, so the length is enough fuel.
unfoldable pub strip_from : ℕ → Loop
unfolding step
strip_from zero first line b = ([], b)
strip_from (suc fuel) first [] b = ([], b)
strip_from (suc fuel) first (c ∷ s) b = step (strip_from fuel) first (c ∷ s) b

unfoldable pub strip_comments_line : Text → Blocks → Stripped
unfolding strip_from starts_with line_comment
strip_comments_line line b = strip_from (length line) true line b

-- The loop over the lines, which both commands share.
unfoldable pub strip_lines : List Text → Blocks → List Text
unfolding strip_comments_line
strip_lines [] b = []
strip_lines (line ∷ lines) b = let r = strip_comments_line line b in r.0 ∷ strip_lines lines r.1

-- `strip_file`: the text written to `out_path`, and the number of lines.
unfoldable pub strip_file : Text → Text × ℕ
unfolding strip_lines split join
strip_file text =
    let out_lines = strip_lines (split b'\n' text) outside in
    (join (codes "\n") out_lines, length out_lines)

abbrev pub scanned_binaries : List Text
scanned_binaries =
    codes "jq"
    ∷ codes "curl"
    ∷ codes "wget"
    ∷ codes "openssl"
    ∷ codes "base64"
    ∷ codes "sha256sum"
    ∷ codes "apt-get"
    ∷ codes "apt"
    ∷ codes "brew"
    ∷ codes "pip"
    ∷ codes "pip3"
    ∷ codes "npm"
    ∷ []

-- `[\s|&;<>()"\`]`
unfoldable pub is_separator : ℕ → Bool
unfolding is_space
is_separator c =
    is_space c
    || c == b'|'
    || c == b'&'
    || c == b';'
    || c == b'<'
    || c == b'>'
    || c == b'('
    || c == b')'
    || c == b'"'
    || c == b'`'

abbrev pub token_split_re : Re
token_split_re = plus (cls is_separator)

-- The last piece, or the default where there is none.
abbrev pub last_or : Text → List Text → Text
last_or t [] = t
last_or t (p ∷ ps) = last_or p ps

-- `tok.rsplit('/', 1)[-1]`
unfoldable pub base_name : Text → Text
unfolding split
base_name tok = last_or tok (split b'/' tok)

-- The binaries among the tokens of one line.
unfoldable pub match_tokens : ℕ → List Text → List (ℕ × Text)
match_tokens lineno [] = []
match_tokens lineno (tok ∷ toks) =
    let rest = match_tokens lineno toks in
    if is_nil tok
    then rest
    else if one_of (base_name tok) scanned_binaries
    then (lineno, base_name tok) ∷ rest
    else rest

unfoldable pub match_lines : ℕ → List Text → List (ℕ × Text)
match_lines lineno [] = []
match_lines lineno (stripped ∷ lines) =
    let rest = match_lines (lineno + 1) lines in
    if is_nil (strip stripped)
    then rest
    else match_tokens lineno (split_re token_split_re stripped) ++ rest

-- `match_file`: the numbered binaries, in the order of the text.
unfoldable pub match_file : Text → List (ℕ × Text)
match_file text = match_lines 1 (strip_lines (split b'\n' text) outside)
