-- ===== src/Py/Text/Find.antt =====
-- Where `find` finds: what stands before and behind the place.
use e2ee_app.Base.{
  ℕ, suc, ◌+◌, ◌-◌, ◌≡◌, ◌≢◌, refl, ap, inl, inr, true, false, [], ◌∷◌, ◌++◌, ◌==◌, ==_iff,
  and-eq-true, Bool-cases, length, drop, drop-append, arith,
}
use e2ee_app.Py.Text.{Text, starts_with, find, find_behind}

-- The place of a find: what stands before it, and what stands behind the text that is found.
pub record IsPlace (sub text : Text) (place : ℕ) : Type 0 where
  pub before : Text
  pub behind : Text
  pub split : text ≡ before ++ (sub ++ behind)
  pub at : place ≡ suc (length before)

starts_with-split :
    (sub text : Text) → starts_with sub text ≡ true → (rest : Text) × (text ≡ sub ++ rest)
unfolding starts_with
starts_with-split [] text h = (text, refl)
starts_with-split (c ∷ sub) [] h = cc
starts_with-split (c ∷ sub) (d ∷ text) h =
    let (e, hs) = and-eq-true h in
    let (rest, split) = starts_with-split sub text hs in (rest, rw ((==_iff c d).0 e, split) refl)

here-IsPlace : (sub text : Text) → starts_with sub text ≡ true → IsPlace sub text 1
here-IsPlace sub text h =
    let (rest, split) = starts_with-split sub text h in
    record { before = []; behind = rest; split = split; at = refl }

-- A place behind the first character.
next-IsPlace :
    (c : ℕ) (sub text : Text) (n : ℕ) → IsPlace sub text n → IsPlace sub (c ∷ text) (1 + n)
next-IsPlace c sub text n p = record {
  before = c ∷ p.before;
  behind = p.behind;
  split = ap (λ s. c ∷ s) p.split;
  at = omega (arith, p.at);
}

IsPlace-eq : {sub text : Text} {m n : ℕ} → m ≡ n → IsPlace sub text m → IsPlace sub text n
IsPlace-eq e p = rw (← e) p

-- A find that is not 0 is one more than the number of characters before the text that is found.
pub find-IsPlace : (sub text : Text) → find sub text ≢ 0 → IsPlace sub text (find sub text)
unfolding find
find-IsPlace sub [] h = elim (Bool-cases (starts_with sub [])) [
  | inl e ↦ rw e (here-IsPlace sub [] e)
  | inr e ↦ absurd (h (rw e refl))
]
find-IsPlace sub (c ∷ text) h = elim (Bool-cases (starts_with sub (c ∷ text))) [
  | inl e ↦ rw e (here-IsPlace sub (c ∷ text) e)
  | inr e ↦ elim (Bool-cases (find sub text == 0)) [
    | inl z ↦ absurd (h (rw (e, z) refl))
    | inr z ↦
        rw (e, z) (next-IsPlace c sub text (find sub text) (find-IsPlace sub text (ne_zero z)))
  ]
]
  where
    ne_zero : {n : ℕ} → (n == 0) ≡ false → n ≢ 0
    ne_zero z = ground arith

-- What `find_behind` finds stands in the text from the start on.
pub find_behind-IsPlace :
    (sub : Text) (start : ℕ) (text : Text)
    → find_behind sub start text ≢ 0
    → IsPlace sub (drop (start - 1) text) (find sub (drop (start - 1) text))
unfolding find_behind
find_behind-IsPlace sub start text h = find-IsPlace sub (drop (start - 1) text) (λ z. h (rw z refl))

-- The text from a place on begins with what was found.
pub drop-place :
    (sub text : Text) (place : ℕ) (p : IsPlace sub text place)
    → drop (place - 1) text ≡ sub ++ p.behind
drop-place sub text place p = rw (place_len, p.split) (drop-append p.before (sub ++ p.behind))
  where
    place_len : place - 1 ≡ length p.before
    place_len = omega (arith, p.at)
