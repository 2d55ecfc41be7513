-- ===== src/Py/Re.antt =====
-- The part of the module `re` that the tools use, on `str`: a pattern as a tree, and the
-- backtracking matcher with its priorities. `\d` is the ASCII digits.
pub mod Laws
use e2ee_app.Base.{
  ℕ, zero, suc, ◌+◌, ◌-◌, Bool, true, false, ◌||◌, Option, none, some, List, [], ◌∷◌, ◌++◌, ltb,
  ◌==◌, if◌then◌else◌, length, take, String,
}
use e2ee_app.Py.Text.{Text, codes, is_space, is_digit, in_range}

pub data Re : Type 0 where
  -- one character of a class
  cls : (ℕ → Bool) → Re
  eps : Re
  seq : Re → Re → Re
  -- the left branch first
  alt : Re → Re → Re
  -- `e*`, greedy, and `e*?`
  star : Re → Re
  lazy : Re → Re
  -- a numbered group
  group : ℕ → Re → Re
  -- `^` and `$` under `re.MULTILINE`
  line_start line_end : Re

-- Where the matcher stands: the character before, the text ahead, the groups closed so far.
pub record Pos : Type 0 where
  pub prev : Option ℕ
  pub rest : Text
  pub groups : List (ℕ × Text)

-- The text between two positions.
abbrev pub consumed : Text → Text → Text
consumed before after = take (length before - length after) before

abbrev at_line_start : Option ℕ → Bool
at_line_start none = true
at_line_start (some c) = c == b'\n'

abbrev at_line_end : Text → Bool
at_line_end [] = true
at_line_end (c ∷ _) = c == b'\n'

-- Steps over one character of a class.
unfoldable pub step_class : (ℕ → Bool) → Pos → (Pos → Option Pos) → Option Pos
step_class p s k = elim s.rest [
  | [] ↦ none
  | c ∷ r ↦ if p c then k (record s { prev = some c; rest = r }) else none
]

-- `e*`: one more round if the rounds make progress and what follows can match, else what follows.
unfoldable pub star_rounds :
    (Pos → (Pos → Option Pos) → Option Pos) → ℕ → Pos → (Pos → Option Pos) → Option Pos
star_rounds body zero s k = k s
star_rounds body (suc fuel) s k =
    elim (body s (λ s'.
      let more = star_rounds body fuel s' k in
      if ltb (length s'.rest) (length s.rest) then more else none)) [ some e ↦ some e | none ↦ k s ]

-- `e*?`: what follows if it can match, else one more round.
unfoldable pub lazy_rounds :
    (Pos → (Pos → Option Pos) → Option Pos) → ℕ → Pos → (Pos → Option Pos) → Option Pos
lazy_rounds body zero s k = k s
lazy_rounds body (suc fuel) s k = elim (k s) [
  | some e ↦ some e
  | none ↦ body s (λ s'.
      let more = lazy_rounds body fuel s' k in
      if ltb (length s'.rest) (length s.rest) then more else none)
]

-- Matches at a position and goes on with `k`; the first success in order of priority.
unfoldable pub match : Re → Pos → (Pos → Option Pos) → Option Pos
unfolding step_class star_rounds lazy_rounds
match (cls p) s k = step_class p s k
match eps s k = k s
match (seq a b) s k = match a s (λ s'. match b s' k)
match (alt a b) s k = elim (match a s k) [ some e ↦ some e | none ↦ match b s k ]
match (star e) s k = star_rounds (match e) (suc (length s.rest)) s k
match (lazy e) s k = lazy_rounds (match e) (suc (length s.rest)) s k
match (group n e) s k =
    match e s (λ s'. k (record s' { groups = (n, consumed s.rest s'.rest) ∷ s'.groups }))
match line_start s k = if at_line_start s.prev then k s else none
match line_end s k = if at_line_end s.rest then k s else none

-- One match in a text: what it skips, what it matches, and the position behind it.
pub record Found : Type 0 where
  pub skipped : Text
  pub matched : Text
  pub after : Pos

abbrev pub start_at : Option ℕ → Text → Pos
start_at prev text = record { prev = prev; rest = text; groups = [] }

-- A match that begins right at the given place.
unfoldable pub match_at : Re → Option ℕ → Text → Option Found
unfolding match
match_at e prev text = elim (match e (start_at prev text) (λ s. some s)) [
  | none ↦ none
  | some s ↦ some (record { skipped = []; matched = consumed text s.rest; after = s })
]

-- One more character is skipped.
abbrev pub skip : ℕ → Option Found → Option Found
skip c none = none
skip c (some f) = some (record f { skipped = c ∷ f.skipped })

-- The leftmost match behind the character `prev`.
unfoldable pub search_from : Re → Option ℕ → Text → Option Found
unfolding match_at
search_from e prev [] = match_at e prev []
search_from e prev (c ∷ s) = elim (match_at e prev (c ∷ s)) [
  | some f ↦ some f
  | none ↦ skip c (search_from e (some c) s)
]

-- `re.search(e, text)`
abbrev pub search_re : Re → Text → Option Found
search_re e text = search_from e none text

-- `bool(re.search(e, text))`
abbrev pub found : Option Found → Bool
found none = false
found (some _) = true

-- `re.search(e, text)` as a condition.
abbrev pub occurs : Re → Text → Bool
occurs e text = found (search_re e text)

-- `m.group(n)`; `none` is Python's `None`. The groups closed last come first.
unfoldable pub group_of : ℕ → List (ℕ × Text) → Option Text
group_of n [] = none
group_of n ((j, t) ∷ g) = if j == n then some t else group_of n g

-- A group that takes part in every match.
abbrev pub group_text : ℕ → Found → Text
group_text n f = elim (group_of n f.after.groups) [ none ↦ [] | some t ↦ t ]

-- `re.finditer(e, text)` for a pattern that never matches the empty text, and the text behind
-- the last match. The fuel bounds the number of matches.
unfoldable pub find_iter_from : Re → ℕ → Option ℕ → Text → List Found × Text
unfolding search_from
find_iter_from e zero prev text = ([], text)
find_iter_from e (suc fuel) prev text = elim (search_from e prev text) [
  | none ↦ ([], text)
  | some f ↦ let more = find_iter_from e fuel f.after.prev f.after.rest in (f ∷ more.0, more.1)
]

unfoldable pub find_iter : Re → Text → List Found × Text
unfolding find_iter_from
find_iter e text = find_iter_from e (suc (length text)) none text

-- The matches with `m.start()` of each; the first search begins at a place.
unfoldable pub placed : ℕ → List Found → List (ℕ × Found)
placed at [] = []
placed at (m ∷ ms) =
    let start = at + length m.skipped in (start, m) ∷ placed (start + length m.matched) ms

abbrev pub matches : Re → Text → List (ℕ × Found)
matches e code = placed 0 (find_iter e code).0

abbrev pub skipped_pieces : List Found → List Text
skipped_pieces [] = []
skipped_pieces (f ∷ fs) = f.skipped ∷ skipped_pieces fs

-- `re.split(e, text)` for a pattern without groups.
unfoldable pub split_re : Re → Text → List Text
unfolding find_iter
split_re e text = let (ms, tail) = find_iter e text in skipped_pieces ms ++ (tail ∷ [])

abbrev pub concat : List Text → Text
concat [] = []
concat (p ∷ ps) = p ++ concat ps

-- `re.sub(e, "", text)`
unfoldable pub erase_re : Re → Text → Text
unfolding split_re
erase_re e text = concat (split_re e text)

abbrev pub char : ℕ → Re
char c = cls (λ d. d == c)

abbrev pub literal : Text → Re
literal [] = eps
literal (c ∷ []) = char c
literal (c ∷ d ∷ s) = seq (char c) (literal (d ∷ s))

abbrev pub any_char : Re
any_char = cls (λ _. true)

abbrev pub space : Re
space = cls is_space

abbrev pub digit : Re
digit = cls is_digit

-- `[A-Za-z0-9_]`
abbrev pub is_word : ℕ → Bool
is_word c = in_range b'A' b'Z' c || in_range b'a' b'z' c || in_range b'0' b'9' c || c == b'_'

-- `\w` up to U+02C1: the letters of Latin and its digits.
abbrev pub is_letter : ℕ → Bool
is_letter c =
    is_word c
    || (c == 170
        || in_range 178 179 c
        || c == 181
        || in_range 185 186 c
        || in_range 188 190 c
        || in_range 192 214 c
        || in_range 216 246 c
        || in_range 248 705 c)

abbrev pub word : Re
word = cls is_letter

abbrev pub opt : Re → Re
opt e = alt e eps

abbrev pub plus : Re → Re
plus e = seq e (star e)

-- Literals with `\s*` between them.
abbrev pub spaced : List String → Re
spaced [] = eps
spaced (s ∷ []) = literal (codes s)
spaced (s ∷ t ∷ ss) = seq (literal (codes s)) (seq (star space) (spaced (t ∷ ss)))
