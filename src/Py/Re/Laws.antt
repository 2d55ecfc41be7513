-- ===== src/Py/Re/Laws.antt =====
-- How the matcher walks over a run of characters of one class, and how `search` skips.
use e2ee_app.Base.{
  refl, ap, ◌∙◌, not, and-eq-true, ◌&&◌, ℕ, zero, suc, ◌-◌, ◌<◌, ◌≡◌, Bool, true, false, Option,
  none, some, List, [], ◌∷◌, ◌++◌, length, length-append, take-append, ltb, All, ==_refl, ◌==◌,
  Bool-cases, inl, inr, arith,
}
use e2ee_app.Py.Re.{
  Re, seq, literal, cls, alt, Pos, Found, consumed, step_class, star_rounds, match, match_at,
  search_from, skip,
}
use e2ee_app.Py.Text.{Text, starts_with}

abbrev pub place : Option ℕ → Text → List (ℕ × Text) → Pos
place prev rest groups = record { prev = prev; rest = rest; groups = groups }

-- The last character of a text, or the one before it.
abbrev pub last_of : Option ℕ → Text → Option ℕ
last_of prev [] = prev
last_of prev (c ∷ w) = last_of (some c) w

pub consumed-append : (w r : Text) → consumed (w ++ r) r ≡ w
consumed-append w r =
    let n : length (w ++ r) - length r ≡ length w = omega (arith, length-append w r) in
    rw n (take-append w r)

ltb-suc : (n : ℕ) → ltb n (suc n) ≡ true
ltb-suc n = ground arith

-- A greedy run up to the first character outside the class, where what follows matches there.
pub star_run :
    (p : ℕ → Bool) (w r : Text) (c fuel : ℕ) (prev : Option ℕ) (g : List (ℕ × Text))
    (k : Pos → Option Pos) {e : Pos}
    → All (λ x. p x ≡ true) w
    → p c ≡ false
    → length w < fuel
    → k (place (last_of prev w) (c ∷ r) g) ≡ some e
    → star_rounds (match (cls p)) fuel (place prev (w ++ c ∷ r) g) k ≡ some e
unfolding star_rounds match step_class
star_run p w r c zero prev g k h out short e = absurd (omega arith)
star_run p [] r c (suc fuel) prev g k h out short e = rw (out, star_rounds, step_class, e)
star_run p (x ∷ w) r c (suc fuel) prev g k h out short e = rw (
  h.0,
  star_rounds,
  step_class,
  ltb-suc (length (w ++ c ∷ r)),
  star_run p w r c fuel (some x) g k h.1 out (omega arith) e,
)

-- The run ends nowhere if what follows matches at none of its ends.
pub star_run_none :
    (p : ℕ → Bool) (w r : Text) (c fuel : ℕ) (prev : Option ℕ) (g : List (ℕ × Text))
    (k : Pos → Option Pos)
    → All (λ x. p x ≡ true) w
    → p c ≡ false
    → ((prev' : Option ℕ) (x : ℕ) (s : Text) → p x ≡ true → k (place prev' (x ∷ s) g) ≡ none)
    → ((prev' : Option ℕ) → k (place prev' (c ∷ r) g) ≡ none)
    → star_rounds (match (cls p)) fuel (place prev (w ++ c ∷ r) g) k ≡ none
unfolding star_rounds match step_class
star_run_none p [] r c zero prev g k h out inside end = end prev
star_run_none p (x ∷ w) r c zero prev g k h out inside end = inside prev x _ h.0
star_run_none p [] r c (suc fuel) prev g k h out inside end =
    rw (out, star_rounds, step_class, end prev)
star_run_none p (x ∷ w) r c (suc fuel) prev g k h out inside end = rw (
  h.0,
  star_rounds,
  step_class,
  ltb-suc (length (w ++ c ∷ r)),
  star_run_none p w r c fuel (some x) g k h.1 out inside end,
  inside prev x (w ++ c ∷ r) h.0,
)

module _ (a b : Re) (s : Pos) (k : Pos → Option Pos) where
  pub match-alt_left : {e : Pos} → match a s k ≡ some e → match (alt a b) s k ≡ some e
  unfolding match
  match-alt_left h = rw h

  pub match-alt_right : match a s k ≡ none → match (alt a b) s k ≡ match b s k
  unfolding match
  match-alt_right h = rw h

pub match_at-eq-some :
    (e : Re) (prev : Option ℕ) (text : Text) {s : Pos}
    → match e (place prev text []) (λ s'. some s') ≡ some s
    → match_at e prev text
      ≡ some (record { skipped = []; matched = consumed text s.rest; after = s })
unfolding match_at
match_at-eq-some e prev text h = rw (h, match_at)

pub match_at-eq-none :
    (e : Re) (prev : Option ℕ) (text : Text)
    → match e (place prev text []) (λ s'. some s') ≡ none
    → match_at e prev text ≡ none
unfolding match_at
match_at-eq-none e prev text h = rw (h, match_at)

pub search_here :
    (e : Re) (prev : Option ℕ) (text : Text) {f : Found}
    → match_at e prev text ≡ some f
    → search_from e prev text ≡ some f
unfolding search_from
search_here e prev [] h = h
search_here e prev (c ∷ s) h = rw (h, search_from)

pub search_later :
    (e : Re) (prev : Option ℕ) (c : ℕ) (s : Text)
    → match_at e prev (c ∷ s) ≡ none
    → search_from e prev (c ∷ s) ≡ skip c (search_from e (some c) s)
unfolding search_from
search_later e prev c s h = rw (h, search_from)

-- A literal, character by character.
pub match-literal :
    (l r : Text) (prev : Option ℕ) (g : List (ℕ × Text)) (k : Pos → Option Pos)
    → match (literal l) (place prev (l ++ r) g) k ≡ k (place (last_of prev l) r g)
unfolding match step_class
match-literal [] r prev g k = refl
match-literal (c ∷ []) r prev g k = rw (==_refl c)
match-literal (c ∷ d ∷ l) r prev g k = rw (==_refl c) (match-literal (d ∷ l) r (some c) g k)

pub match-literal-none :
    (l s : Text) (prev : Option ℕ) (g : List (ℕ × Text)) (k : Pos → Option Pos)
    → starts_with l s ≡ false
    → match (literal l) (place prev s g) k ≡ none
unfolding match step_class starts_with
match-literal-none [] s prev g k h = cc
match-literal-none (c ∷ []) [] prev g k h = refl
match-literal-none (c ∷ d ∷ l) [] prev g k h = refl
match-literal-none (c ∷ []) (x ∷ s) prev g k h = ground arith
match-literal-none (c ∷ d ∷ l) (x ∷ s) prev g k h = elim (Bool-cases (x == c)) [
  | inl e ↦ rw e (match-literal-none (d ∷ l) s (some x) g k (ground arith))
  | inr e ↦ rw e
]

-- The literal does not occur before the end of the first text, with the second behind it.
unfoldable pub first_at : Text → Text → Text → Bool
first_at l [] s = true
first_at l (c ∷ pre) s = not (starts_with l (c ∷ (pre ++ s))) && first_at l pre s

not-eq-true : (b : Bool) → not b ≡ true → b ≡ false
not-eq-true true h = cc
not-eq-true false h = refl

-- A pattern that begins with a literal is found where the literal first occurs, if it matches there.
pub search_literal :
    (l : Text) (e : Re) (pre s : Text) (prev : Option ℕ) {f : Found}
    → first_at l pre s ≡ true
    → match_at (seq (literal l) e) (last_of prev pre) s ≡ some f
    → search_from (seq (literal l) e) prev (pre ++ s)
      ≡ some (record f { skipped = pre ++ f.skipped })
unfolding first_at
search_literal l e [] s prev h m = search_here (seq (literal l) e) prev s m
search_literal l e (c ∷ pre) s prev h m =
    let (other, later) = and-eq-true {a = not (starts_with l (c ∷ (pre ++ s)))} h in
    let fails =
      match-literal-none l (c ∷ (pre ++ s)) prev [] (λ s'. match e s' (λ x. some x))
        (not-eq-true _ other) in
    search_later (seq (literal l) e) prev c (pre ++ s)
      (match_at-eq-none (seq (literal l) e) prev (c ∷ (pre ++ s)) (unfold match in fails))
    ∙ ap (skip c) (search_literal l e pre s (some c) later m)
