-- ===== src/Py/Text/Order.antt =====
-- The order of texts is a strict total order.
use e2ee_app.Base.{ℕ, ◌≡◌, refl, sym, Bool, true, false, ◌&&◌, ◌||◌, [], ◌∷◌, ltb, ◌==◌, arith}
use e2ee_app.Py.Text.{Text, text_lt}

cons_eq : {c d : ℕ} {s t : Text} → c ≡ d → s ≡ t → (c ∷ s) ≡ (d ∷ t)
cons_eq p q = cc

head_eq :
    (c d : ℕ) (a b : Bool)
    → ltb c d || (c == d && a) ≡ false
    → ltb d c || (d == c && b) ≡ false
    → c ≡ d
head_eq c d a b h k = ground arith

tail_false : (c d : ℕ) (a : Bool) → c ≡ d → ltb c d || (c == d && a) ≡ false → a ≡ false
tail_false c d a e h = ground arith

head_asym :
    (c d : ℕ) (a b : Bool)
    → (a ≡ true → b ≡ false)
    → ltb c d || (c == d && a) ≡ true
    → ltb d c || (d == c && b) ≡ false
head_asym c d true b ih h = let e = ih refl in ground arith
head_asym c d false b ih h = ground arith

head_trans :
    (c d e : ℕ) (a b x : Bool)
    → (a ≡ false → b ≡ true → x ≡ true)
    → ltb d c || (d == c && a) ≡ false
    → ltb d e || (d == e && b) ≡ true
    → ltb c e || (c == e && x) ≡ true
head_trans c d e false true x ih h k = let z = ih refl refl in ground arith
head_trans c d e true b x ih h k = ground arith
head_trans c d e false false x ih h k = ground arith

pub text_lt_asym : (s t : Text) → text_lt s t ≡ true → text_lt t s ≡ false
unfolding text_lt
text_lt_asym [] [] h = refl
text_lt_asym [] (d ∷ t) h = refl
text_lt_asym (c ∷ s) [] h = cc
text_lt_asym (c ∷ s) (d ∷ t) h = head_asym c d (text_lt s t) (text_lt t s) (text_lt_asym s t) h

-- Texts neither of which comes first are equal.
pub text_lt_total : (s t : Text) → text_lt s t ≡ false → text_lt t s ≡ false → s ≡ t
unfolding text_lt
text_lt_total [] [] h k = refl
text_lt_total [] (d ∷ t) h k = cc
text_lt_total (c ∷ s) [] h k = cc
text_lt_total (c ∷ s) (d ∷ t) h k =
    let e = head_eq c d (text_lt s t) (text_lt t s) h k in
    cons_eq e (
      text_lt_total s t (tail_false c d (text_lt s t) e h) (tail_false d c (text_lt t s) (sym e) k))

-- Where `s` does not come behind `t`, and `t` comes before `u`, `s` comes before `u`.
pub text_lt_trans : (s t u : Text) → text_lt t s ≡ false → text_lt t u ≡ true → text_lt s u ≡ true
unfolding text_lt
text_lt_trans s [] [] h k = cc
text_lt_trans s (d ∷ t) [] h k = cc
text_lt_trans [] t (e ∷ u) h k = refl
text_lt_trans (c ∷ s) [] (e ∷ u) h k = cc
text_lt_trans (c ∷ s) (d ∷ t) (e ∷ u) h k =
    head_trans c d e (text_lt t s) (text_lt t u) (text_lt s u) (text_lt_trans s t u) h k
