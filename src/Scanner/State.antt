-- ===== src/Scanner/State.antt =====
-- The state that the comment stripper carries from line to line, and its loop's fuel.
use e2ee_app.Base.{
  ℕ, zero, suc, ◌≤◌, ◌<◌, ◌≡◌, refl, ap, ◌∙◌, Bool, true, false, ◌&&◌, ◌||◌, some, inl, inr, [],
  ◌∷◌, length, drop, length-drop, Bool-cases, Option-cases, arith,
}
use e2ee_app.Py.Text.{Text, codes, starts_with}
use e2ee_app.Scanner.{
  Blocks, Loop, emit, step_code, step_block, step, strip_from, strip_comments_line, line_comment,
}

-- At most one kind of block is open.
abbrev pub IsExclusive : Blocks → Type 0
IsExclusive b =
    ((b.in_c && b.in_pwsh) ≡ false)
    × ((b.in_c && b.in_xml) ≡ false)
    × ((b.in_pwsh && b.in_xml) ≡ false)

-- What one round does, whatever the rest of the loop is: it ends at a line comment, writes one
-- character, or moves on without writing and perhaps enters or leaves a block.
pub data Round (first : Bool) (c : ℕ) (s : Text) (b : Blocks) : Type 0 where
  stops :
      (white : Text)
      → line_comment (c ∷ s) ≡ some white
      → ((go : Loop) → step go first (c ∷ s) b ≡ (white, b))
      → Round first c s b
  writes : ((go : Loop) → step go first (c ∷ s) b ≡ emit go (c ∷ s) b) → Round first c s b
  moves :
      (n : ℕ) (b' : Blocks)
      → 0 < n
      → (IsExclusive b → IsExclusive b')
      → ((go : Loop) → step go first (c ∷ s) b ≡ go false (drop n (c ∷ s)) b')
      → Round first c s b

code-Round :
    (first : Bool) (c : ℕ) (s : Text) (b : Blocks)
    → (b.in_c || b.in_pwsh || b.in_xml) ≡ false
    → Round first c s b
unfolding step step_code
code-Round first c s b out = elim (Bool-cases (starts_with (codes "/*") (c ∷ s))) [
  | inl e ↦ moves 2 (record b { in_c = true }) (omega arith) (λ h. ground arith) (λ go. rw (out, e))
  | inr e ↦ elim (Bool-cases (starts_with (codes "<#") (c ∷ s))) [
    | inl f ↦
        moves 2 (record b { in_pwsh = true }) (omega arith) (λ h. ground arith)
          (λ go. rw (out, e, f))
    | inr f ↦ elim (Bool-cases (starts_with (codes "<!--") (c ∷ s))) [
      | inl g ↦
          moves 4 (record b { in_xml = true }) (omega arith) (λ h. ground arith)
            (λ go. rw (out, e, f, g))
      | inr g ↦ elim (Bool-cases first) [
        | inl at_start ↦ elim (Option-cases (line_comment (c ∷ s))) [
          | inl none_here ↦ writes (λ go. rw (out, e, f, g, at_start, none_here))
          | inr (white, here) ↦ stops white here (λ go. rw (out, e, f, g, at_start, here))
        ]
        | inr later ↦ writes (λ go. rw (out, e, f, g, later))
      ]
    ]
  ]
]

block-Round :
    (first : Bool) (c : ℕ) (s : Text) (b left : Blocks) (close : Text)
    → 0 < length close
    → ((go : Loop) → step go first (c ∷ s) b ≡ step_block go close (c ∷ s) b left)
    → (IsExclusive b → IsExclusive left)
    → Round first c s b
unfolding step_block
block-Round first c s b left close pos run keep = elim (Bool-cases (starts_with close (c ∷ s))) [
  | inl e ↦ moves (length close) left pos keep (λ go. run go ∙ rw e)
  | inr e ↦ moves 1 b (omega arith) (λ h. h) (λ go. run go ∙ rw e)
]

pub round : (first : Bool) (c : ℕ) (s : Text) (b : Blocks) → Round first c s b
unfolding step
round first c s b = elim (Bool-cases (b.in_c || b.in_pwsh || b.in_xml)) [
  | inr out ↦ code-Round first c s b out
  | inl inside ↦ elim (Bool-cases b.in_c) [
    | inl x ↦
        block-Round first c s b (record b { in_c = false }) (codes "*/") (omega arith)
          (λ go. rw (inside, x)) (λ h. ground arith)
    | inr x ↦ elim (Bool-cases b.in_pwsh) [
      | inl y ↦
          block-Round first c s b (record b { in_pwsh = false }) (codes "#>") (omega arith)
            (λ go. rw (inside, x, y)) (λ h. ground arith)
      | inr y ↦
          block-Round first c s b (record b { in_xml = false }) (codes "-->") (omega arith)
            (λ go. rw (inside, x, y)) (λ h. ground arith)
    ]
  ]
]

abbrev Keeps : Loop → Type 0
Keeps go =
    (first : Bool) (line : Text) (b : Blocks) → IsExclusive b → IsExclusive (go first line b).1

strip_from-IsExclusive : (fuel : ℕ) → Keeps (strip_from fuel)
unfolding strip_from
strip_from-IsExclusive zero first line b h = h
strip_from-IsExclusive (suc fuel) first [] b h = h
strip_from-IsExclusive (suc fuel) first (c ∷ s) b h = elim (round first c s b) [
  | stops white e run ↦ rw run h
  | writes run ↦ rw run (strip_from-IsExclusive fuel false s b h)
  | moves n b' pos keep run ↦ rw run (strip_from-IsExclusive fuel false _ b' (keep h))
]

-- Whatever the line holds, a state with at most one open block leads to such a state.
pub strip_comments_line-IsExclusive :
    (line : Text) (b : Blocks) → IsExclusive b → IsExclusive (strip_comments_line line b).1
unfolding strip_comments_line
strip_comments_line-IsExclusive line b h = strip_from-IsExclusive (length line) true line b h

strip_from_fuel :
    (fuel fuel' : ℕ) (first : Bool) (line : Text) (b : Blocks)
    → length line ≤ fuel
    → length line ≤ fuel'
    → strip_from fuel first line b ≡ strip_from fuel' first line b
unfolding strip_from
strip_from_fuel zero zero first line b h h' = refl
strip_from_fuel zero (suc fuel') first [] b h h' = refl
strip_from_fuel zero (suc fuel') first (c ∷ s) b h h' = absurd (omega arith)
strip_from_fuel (suc fuel) zero first [] b h h' = refl
strip_from_fuel (suc fuel) zero first (c ∷ s) b h h' = absurd (omega arith)
strip_from_fuel (suc fuel) (suc fuel') first [] b h h' = refl
strip_from_fuel (suc fuel) (suc fuel') first (c ∷ s) b h h' = elim (round first c s b) [
  | stops white e run ↦ rw (run, run)
  | writes run ↦
      rw (run, run)
        (ap (λ r. (c ∷ r.0, r.1))
          (strip_from_fuel fuel fuel' false s b (omega arith) (omega arith)))
  | moves n b' pos keep run ↦
      let short : length (drop n (c ∷ s)) ≤ length s = omega (arith, length-drop n (c ∷ s)) in
      rw (run, run) (strip_from_fuel fuel fuel' false _ b' (omega arith) (omega arith))
]

-- More fuel than the length of the line changes nothing: the loop ends by itself.
pub strip_from-strip_comments_line :
    (fuel : ℕ) (line : Text) (b : Blocks)
    → length line ≤ fuel
    → strip_from fuel true line b ≡ strip_comments_line line b
unfolding strip_comments_line
strip_from-strip_comments_line fuel line b h =
    strip_from_fuel fuel (length line) true line b h (omega arith)
