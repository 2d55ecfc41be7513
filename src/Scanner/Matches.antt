-- ===== src/Scanner/Matches.antt =====
-- What `match_file` reports: scanned binaries only, with the number of their line, and every one.
use e2ee_app.Base.{
  ℕ, zero, suc, ◌+◌, ◌≤◌, ◌<◌, ◌≡◌, subst, true, false, some, List, inl, inr, [], ◌∷◌, length, All,
  All-append, In, here, there, In-append_left, In-append_right, get_elem?, is_nil, Bool-cases,
  arith,
}
use e2ee_app.Py.Re.{split_re}
use e2ee_app.Py.Text.{Text, one_of, split, strip}
use e2ee_app.Scanner.{
  outside, strip_lines, scanned_binaries, token_split_re, base_name, match_tokens, match_lines,
  match_file,
}
use e2ee_app.Scanner.Lines.{length-strip_lines}

-- A scanned binary, on one of the lines from `lo` to `hi - 1`.
abbrev pub IsReport : ℕ → ℕ → ℕ × Text → Type 0
IsReport lo hi m = (lo ≤ m.0) × (m.0 < hi) × (one_of m.1 scanned_binaries ≡ true)

match_tokens-IsReport :
    (n hi : ℕ) (toks : List Text) → n < hi → All (IsReport n hi) (match_tokens n toks)
unfolding match_tokens
match_tokens-IsReport n hi [] h = tt
match_tokens-IsReport n hi (tok ∷ toks) h = elim (Bool-cases (is_nil tok)) [
  | inl e ↦ rw e (match_tokens-IsReport n hi toks h)
  | inr e ↦ elim (Bool-cases (one_of (base_name tok) scanned_binaries)) [
    | inl f ↦ rw (e, f) ((omega arith, h, f), match_tokens-IsReport n hi toks h)
    | inr f ↦ rw (e, f) (match_tokens-IsReport n hi toks h)
  ]
]

All-IsReport_weaken :
    (lo hi lo' hi' : ℕ) (ms : List (ℕ × Text))
    → lo' ≤ lo
    → hi ≤ hi'
    → All (IsReport lo hi) ms
    → All (IsReport lo' hi') ms
All-IsReport_weaken lo hi lo' hi' [] p q h = tt
All-IsReport_weaken lo hi lo' hi' (m ∷ ms) p q h =
    ((omega arith, omega arith, h.0.2), All-IsReport_weaken lo hi lo' hi' ms p q h.1)

match_lines-IsReport :
    (n : ℕ) (lines : List Text) → All (IsReport n (n + length lines)) (match_lines n lines)
unfolding match_lines
match_lines-IsReport n [] = tt
match_lines-IsReport n (line ∷ lines) =
    let later =
      All-IsReport_weaken (n + 1) (n + 1 + length lines) n (n + suc (length lines))
        (match_lines (n + 1) lines) (omega arith) (omega arith)
        (match_lines-IsReport (n + 1) lines) in
    elim (Bool-cases (is_nil (strip line))) [
      | inl e ↦ rw e later
      | inr e ↦ rw e (
          All-append (IsReport n (n + suc (length lines)))
            (match_tokens n (split_re token_split_re line)) (match_lines (n + 1) lines)
            (match_tokens-IsReport n _ (split_re token_split_re line) (omega arith)) later)
    ]

-- Every report names a scanned binary, and its number is that of a line of the file, from 1.
pub match_file-IsReport :
    (text : Text) → All (IsReport 1 (1 + length (split b'\n' text))) (match_file text)
unfolding match_file
match_file-IsReport text =
    subst
      (λ (n : ℕ). All (IsReport 1 (1 + n)) (match_lines 1 (strip_lines (split b'\n' text) outside)))
      (length-strip_lines (split b'\n' text) outside)
      (match_lines-IsReport 1 (strip_lines (split b'\n' text) outside))

match_tokens_complete :
    (n : ℕ) (tok : Text) (toks : List Text)
    → In tok toks
    → is_nil tok ≡ false
    → one_of (base_name tok) scanned_binaries ≡ true
    → In (n, base_name tok) (match_tokens n toks)
unfolding match_tokens
match_tokens_complete n tok [] m e f = elim m [ ]
match_tokens_complete n tok (_ ∷ toks) here e f = rw (e, f) here
match_tokens_complete n tok (t ∷ toks) (there m) e f =
    let rest = match_tokens_complete n tok toks m e f in
    elim (Bool-cases (is_nil t)) [
      | inl g ↦ rw g rest
      | inr g ↦ elim (Bool-cases (one_of (base_name t) scanned_binaries)) [
        | inl k ↦ rw (g, k) (there rest)
        | inr k ↦ rw (g, k) rest
      ]
    ]

match_lines_complete :
    (n k : ℕ) (lines : List Text) (line tok : Text)
    → get_elem? lines k ≡ some line
    → is_nil (strip line) ≡ false
    → In tok (split_re token_split_re line)
    → is_nil tok ≡ false
    → one_of (base_name tok) scanned_binaries ≡ true
    → In (n + k, base_name tok) (match_lines n lines)
unfolding match_lines
match_lines_complete n k [] line tok at m e f g = cc
match_lines_complete n zero (l ∷ lines) line tok at w m e f =
    let same : l ≡ line = cc in
    let number : n ≡ n + 0 = omega arith in
    rw (same, w, ← number)
      (In-append_left (match_lines (n + 1) lines)
        (match_tokens_complete n tok (split_re token_split_re line) m e f))
match_lines_complete n (suc k) (l ∷ lines) line tok at w m e f =
    let number : n + 1 + k ≡ n + suc k = omega arith in
    let rest =
      subst (λ (j : ℕ). In (j, base_name tok) (match_lines (n + 1) lines)) number
        (match_lines_complete (n + 1) k lines line tok at w m e f) in
    elim (Bool-cases (is_nil (strip l))) [
      | inl g ↦ rw g rest
      | inr g ↦ rw g (In-append_right (match_tokens n (split_re token_split_re l)) rest)
    ]

-- No scanned binary is missed: if the k-th line, stripped in the state that the lines before it
-- leave, is not blank, and one of its tokens ends in a scanned name behind the last slash, then
-- that name is reported with the number k + 1.
pub match_file_complete :
    (text : Text) (k : ℕ) (line tok : Text)
    → get_elem? (strip_lines (split b'\n' text) outside) k ≡ some line
    → is_nil (strip line) ≡ false
    → In tok (split_re token_split_re line)
    → is_nil tok ≡ false
    → one_of (base_name tok) scanned_binaries ≡ true
    → In (1 + k, base_name tok) (match_file text)
unfolding match_file
match_file_complete text k line tok =
    match_lines_complete 1 k (strip_lines (split b'\n' text) outside) line tok
