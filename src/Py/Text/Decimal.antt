-- ===== src/Py/Text/Decimal.antt =====
-- Decimal numbers: `str` of a number is digits, and `int` reads them back.
use e2ee_app.Base.{
  ℕ, zero, suc, ◌+◌, ◌/◌, ◌%◌, ◌<◌, ◌≡◌, ◌≢◌, sym, ◌∙◌, true, false, [], ◌∷◌, leb, leb→le, All,
  Bool-cases, inl, inr, arith, ap,
}
use e2ee_app.Py.Text.{Text, decimal_onto, decimal, is_digit, parse_int_from, parse_int}

is_digit_lem : (n : ℕ) → is_digit (b'0' + n % 10) ≡ true
unfolding is_digit
is_digit_lem n = ground arith

small :
    (fuel n : ℕ) (acc : Text)
    → leb n 9 ≡ true
    → decimal_onto (suc fuel) n acc ≡ (b'0' + n % 10) ∷ acc
unfolding decimal_onto
small fuel n acc h = rw (h, decimal_onto)

large :
    (fuel n : ℕ) (acc : Text)
    → leb n 9 ≡ false
    → decimal_onto (suc fuel) n acc ≡ decimal_onto fuel (n / 10) ((b'0' + n % 10) ∷ acc)
unfolding decimal_onto
large fuel n acc h = rw (h, decimal_onto)

parse_int-decimal_onto :
    (fuel n : ℕ) (acc : Text)
    → n < fuel
    → parse_int_from 0 (decimal_onto fuel n acc) ≡ parse_int_from n acc
parse_int-decimal_onto zero n acc h = absurd (omega arith)
parse_int-decimal_onto (suc fuel) n acc h = elim (Bool-cases (leb n 9)) [
  | inl e ↦
      let few = leb→le n 9 e in
      rw (small fuel n acc e)
        (unfold parse_int_from in ap (λ (k : ℕ). parse_int_from k acc) (omega arith))
  | inr e ↦
      let many : 9 < n = ground arith in
      rw (large fuel n acc e) (
        parse_int-decimal_onto fuel (n / 10) ((b'0' + n % 10) ∷ acc) (omega arith)
        ∙ unfold parse_int_from in ap (λ (k : ℕ). parse_int_from k acc) (omega arith))
]

-- `int(str(n))` is `n`.
pub parse_int-decimal : (n : ℕ) → parse_int (decimal n) ≡ n
unfolding decimal parse_int_from
parse_int-decimal n = parse_int-decimal_onto (suc n) n [] (omega arith)

decimal_onto-IsDigits :
    (fuel n : ℕ) (acc : Text)
    → All (λ c. is_digit c ≡ true) acc
    → All (λ c. is_digit c ≡ true) (decimal_onto fuel n acc)
decimal_onto-IsDigits zero n acc h = unfold decimal_onto in h
decimal_onto-IsDigits (suc fuel) n acc h = elim (Bool-cases (leb n 9)) [
  | inl e ↦ rw (small fuel n acc e) (is_digit_lem n, h)
  | inr e ↦
      rw (large fuel n acc e)
        (decimal_onto-IsDigits fuel (n / 10) ((b'0' + n % 10) ∷ acc) (is_digit_lem n, h))
]

pub decimal-IsDigits : (n : ℕ) → All (λ c. is_digit c ≡ true) (decimal n)
unfolding decimal
decimal-IsDigits n = decimal_onto-IsDigits (suc n) n [] tt

decimal_onto-ne-nil : (fuel n c : ℕ) (acc : Text) → decimal_onto fuel n (c ∷ acc) ≢ []
unfolding decimal_onto
decimal_onto-ne-nil zero n c acc h = cc
decimal_onto-ne-nil (suc fuel) n c acc h = elim (Bool-cases (leb n 9)) [
  | inl e ↦ cc (small fuel n (c ∷ acc) e)
  | inr e ↦
      decimal_onto-ne-nil fuel (n / 10) (b'0' + n % 10) (c ∷ acc)
        (sym (large fuel n (c ∷ acc) e) ∙ h)
]

pub decimal-ne-nil : (n : ℕ) → decimal n ≢ []
unfolding decimal
decimal-ne-nil n h = elim (Bool-cases (leb n 9)) [
  | inl e ↦ cc (small n n [] e)
  | inr e ↦ decimal_onto-ne-nil n (n / 10) (b'0' + n % 10) [] (sym (large n n [] e) ∙ h)
]
