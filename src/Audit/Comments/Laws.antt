-- ===== src/Audit/Comments/Laws.antt =====
-- What `strip_comments` does to one line.
use e2ee_app.Audit.Comments.{is_comment, next_string, next_escape, cut_line}
use e2ee_app.Base.{
  ◌≡◌, ◌⊎◌, refl, ◌∙◌, ap, ℕ, append-nil, and-eq-true, Bool, true, false, not, ◌&&◌, ◌||◌, [], ◌∷◌,
  ◌++◌, ◌==◌, All, Bool-cases, inl, inr, if◌then◌else◌, arith,
}
use e2ee_app.Py.Text.{Text, codes, starts_with}

-- The comment that is cut off a line.
pub comment_of : Bool → Bool → Text → Text
comment_of in_string escape [] = []
comment_of in_string escape (c ∷ s) =
    let rest =
      comment_of (next_string in_string escape (c == b'"')) (next_escape escape (c == b'\\')) s in
    if is_comment in_string escape (c ∷ s) then c ∷ s else rest

cut_line-comment_of : (s e : Bool) (line : Text) → cut_line s e line ++ comment_of s e line ≡ line
unfolding cut_line comment_of
cut_line-comment_of s e [] = refl
cut_line-comment_of s e (c ∷ line) =
    ground
      (arith, cut_line-comment_of (next_string s e (c == b'"')) (next_escape e (c == b'\\')) line)

comment_of-starts :
    (s e : Bool) (line : Text)
    → (comment_of s e line ≡ []) ⊎ (starts_with (codes "//") (comment_of s e line) ≡ true)
unfolding comment_of
comment_of-starts s e [] = inl refl
comment_of-starts s e (c ∷ line) = elim (Bool-cases (is_comment s e (c ∷ line))) [
  | inl h ↦ rw h (inr (and-eq-true {a = not s} (and-eq-true {a = not e} h).1).1)
  | inr h ↦ rw h (comment_of-starts (next_string s e (c == b'"')) (next_escape e (c == b'\\')) line)
]

-- A line without a quote, a backslash or a slash.
abbrev pub IsBare : Text → Type 0
IsBare = All (λ c. (c == b'"' || c == b'\\' || c == b'/') ≡ false)

cut_line-cons :
    (s : Bool) (c : ℕ) (line : Text)
    → (c == b'"' || c == b'\\') ≡ false
    → (not s && c == b'/') ≡ false
    → cut_line s false (c ∷ line) ≡ c ∷ cut_line s false line
unfolding cut_line starts_with
cut_line-cons true c line h k = ground arith
cut_line-cons false c line h k = ground arith

cut_line_bare :
    (code rest : Text)
    → IsBare code
    → cut_line false false (code ++ rest) ≡ code ++ cut_line false false rest
cut_line_bare [] rest h = refl
cut_line_bare (c ∷ code) rest h =
    let bare = h.0 in
    cut_line-cons false c (code ++ rest) (ground arith) (ground arith)
    ∙ ap (◌∷◌ c) (cut_line_bare code rest h.1)

-- A trailing comment is cut off bare code, whatever it says.
pub cut_line_trailing :
    (code comment : Text)
    → IsBare code
    → cut_line false false (code ++ b'/' ∷ b'/' ∷ comment) ≡ code
cut_line_trailing code comment h =
    cut_line_bare code (b'/' ∷ b'/' ∷ comment) h ∙ unfold cut_line starts_with in append-nil code

-- Text that can stand in a string literal as it is.
abbrev pub IsInner : Text → Type 0
IsInner = All (λ c. (c == b'"' || c == b'\\') ≡ false)

cut_line_inner :
    (u rest : Text) → IsInner u → cut_line true false (u ++ rest) ≡ u ++ cut_line true false rest
cut_line_inner [] rest h = refl
cut_line_inner (c ∷ u) rest h =
    cut_line-cons true c (u ++ rest) h.0 refl ∙ ap (◌∷◌ c) (cut_line_inner u rest h.1)

cut_line_quote :
    (s : Bool) (rest : Text) → cut_line s false (b'"' ∷ rest) ≡ b'"' ∷ cut_line (not s) false rest
unfolding cut_line starts_with
cut_line_quote true rest = refl
cut_line_quote false rest = refl

-- A string literal behind bare code is kept, with every `//` in it, and the stripping goes on
-- behind it.
pub cut_line_string :
    (code u rest : Text)
    → IsBare code
    → IsInner u
    → cut_line false false (code ++ b'"' ∷ (u ++ b'"' ∷ rest))
      ≡ code ++ b'"' ∷ (u ++ b'"' ∷ cut_line false false rest)
cut_line_string code u rest h k =
    cut_line_bare code (b'"' ∷ (u ++ b'"' ∷ rest)) h
    ∙ ap (◌++◌ code) (
        cut_line_quote false (u ++ b'"' ∷ rest)
        ∙ ap (◌∷◌ b'"') (cut_line_inner u (b'"' ∷ rest) k ∙ ap (◌++◌ u) (cut_line_quote true rest)))

-- Nothing but a comment at the end of a line is lost: the line is what is kept and a rest, and
-- the rest is empty or begins with two slashes.
pub cut_line_prefix :
    (line : Text)
    → (comment : Text) × (cut_line false false line ++ comment ≡ line)
      × ((comment ≡ []) ⊎ (starts_with (codes "//") comment ≡ true))
cut_line_prefix line = (
  comment_of false false line,
  cut_line-comment_of false false line,
  comment_of-starts false false line,
)
