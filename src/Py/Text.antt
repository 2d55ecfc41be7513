-- ===== src/Py/Text.antt =====
-- Python's `str` as a list of code points, with the methods that the tools call.
pub mod Split
pub mod Decimal
pub mod Find
pub mod Order
use Prim.Native.Char.{code}
use e2ee_app.Base.{
  ℕ, zero, suc, ◌+◌, ◌-◌, ◌*◌, ◌/◌, ◌%◌, ◌≡◌, refl, ◌↔◌, Bool, true, false, ◌&&◌, ◌||◌, List, [],
  ◌∷◌, ◌++◌, String, ltb, leb, ◌==◌, ==_iff, and-eq-true, if◌then◌else◌, arith, length, drop,
}

abbrev pub Text : Type 0
Text = List ℕ

-- The code points of a literal.
abbrev pub codes : String → Text
codes String.[] = []
codes (String.◌∷◌ c s) = code c ∷ codes s

abbrev pub in_range : ℕ → ℕ → ℕ → Bool
in_range lo hi c = leb lo c && leb c hi

-- `a == b`
unfoldable pub text_eq : Text → Text → Bool
text_eq [] [] = true
text_eq (x ∷ xs) (y ∷ ys) = x == y && text_eq xs ys
text_eq _ _ = false

pub text_eq_refl : (a : Text) → text_eq a a ≡ true
unfolding text_eq
text_eq_refl [] = refl
text_eq_refl (x ∷ a) = ground (arith, text_eq_refl a)

pub text_eq→eq : (a b : Text) → text_eq a b ≡ true → a ≡ b
unfolding text_eq
text_eq→eq [] [] h = refl
text_eq→eq [] (y ∷ b) h = cc
text_eq→eq (x ∷ a) [] h = cc
text_eq→eq (x ∷ a) (y ∷ b) h =
    let both = and-eq-true {a = x == y} {b = text_eq a b} h in
    cc ((==_iff x y).0 both.0, text_eq→eq a b both.1)

pub text_eq_iff : (a b : Text) → (text_eq a b ≡ true) ↔ (a ≡ b)
text_eq_iff a b = (text_eq→eq a b, λ e. subst_eq e)
  where
    subst_eq : a ≡ b → text_eq a b ≡ true
    subst_eq e = rw (← e) (text_eq_refl a)

-- `s.startswith(p)`, the prefix first.
unfoldable pub starts_with : Text → Text → Bool
starts_with [] s = true
starts_with (p ∷ ps) [] = false
starts_with (p ∷ ps) (c ∷ s) = p == c && starts_with ps s

-- `needle in s`
unfoldable pub contains : Text → Text → Bool
contains needle [] = starts_with needle []
contains needle (c ∷ s) = starts_with needle (c ∷ s) || contains needle s

-- The text is one of the list: `s in (a, b, ...)`.
unfoldable pub one_of : Text → List Text → Bool
unfolding text_eq
one_of s [] = false
one_of s (a ∷ as') = text_eq s a || one_of s as'

-- `str.isspace` of one character, which is also `\s` of a pattern on `str`.
unfoldable pub is_space : ℕ → Bool
is_space c =
    in_range 9 13 c
    || in_range 28 32 c
    || c == 0x85
    || c == 0xa0
    || c == 0x1680
    || in_range 0x2000 0x200a c
    || in_range 0x2028 0x2029 c
    || c == 0x202f
    || c == 0x205f
    || c == 0x3000

-- `s.lstrip()`
unfoldable pub lstrip : Text → Text
unfolding is_space
lstrip [] = []
lstrip (c ∷ s) = if is_space c then lstrip s else c ∷ s

-- `s.rstrip()`
unfoldable pub rstrip : Text → Text
unfolding is_space
rstrip [] = []
rstrip (c ∷ s) = elim (rstrip s) [ [] ↦ if is_space c then [] else c ∷ [] | d ∷ r ↦ c ∷ d ∷ r ]

-- `s.strip()`
unfoldable pub strip : Text → Text
unfolding lstrip rstrip
strip s = rstrip (lstrip s)

-- Puts one character in front of the first piece.
abbrev pub cons_first : ℕ → List Text → List Text
cons_first c [] = (c ∷ []) ∷ []
cons_first c (l ∷ ls) = (c ∷ l) ∷ ls

-- `s.split(sep)` at a separator of one character.
unfoldable pub split : ℕ → Text → List Text
split sep [] = [] ∷ []
split sep (c ∷ s) = let rest = split sep s in if c == sep then [] ∷ rest else cons_first c rest

-- The line boundaries of `str.splitlines`; a carriage return eats a newline behind it.
abbrev is_line_break : ℕ → Bool
is_line_break c = in_range 10 13 c || in_range 28 30 c || c == 0x85 || in_range 0x2028 0x2029 c

-- The lines behind the current one; the flag says that a carriage return has just ended a line.
unfoldable pub splitlines_from : Bool → Text → List Text
splitlines_from cr [] = []
splitlines_from cr (c ∷ s) =
    if cr && c == b'\n'
    then splitlines_from false s
    else if is_line_break c
    then [] ∷ splitlines_from (c == b'\r') s
    else cons_first c (splitlines_from false s)

-- `s.splitlines()`
unfoldable pub splitlines : Text → List Text
unfolding splitlines_from
splitlines s = splitlines_from false s

-- `sep.join(parts)`
unfoldable pub join : Text → List Text → Text
join sep [] = []
join sep (p ∷ []) = p
join sep (p ∷ q ∷ ps) = p ++ (sep ++ join sep (q ∷ ps))

-- `s.lower()`, exact on every character that lowers to an ASCII one: U+0130 becomes `i` and a
-- combining dot, U+212A becomes `k`. Other characters beyond ASCII never lower to ASCII.
unfoldable pub lower : Text → Text
lower [] = []
lower (c ∷ s) =
    let rest = lower s in
    if in_range b'A' b'Z' c
    then (c + 32) ∷ rest
    else if c == 0x130
    then b'i' ∷ 0x307 ∷ rest
    else if c == 0x212a
    then b'k' ∷ rest
    else c ∷ rest

-- `str(n)` of a number below `10 ^ fuel`, in front of the digits so far.
unfoldable pub decimal_onto : ℕ → ℕ → Text → Text
decimal_onto zero n acc = acc
decimal_onto (suc fuel) n acc =
    let digit = b'0' + n % 10 in
    elim (leb n 9) [ true ↦ digit ∷ acc | false ↦ decimal_onto fuel (n / 10) (digit ∷ acc) ]

-- `str(n)`; a number has at most as many digits as its value, plus one.
unfoldable pub decimal : ℕ → Text
unfolding decimal_onto
decimal n = decimal_onto (suc n) n []

unfoldable pub is_digit : ℕ → Bool
is_digit c = in_range b'0' b'9' c

-- `int(s)` of a text of digits.
unfoldable pub parse_int_from : ℕ → Text → ℕ
parse_int_from acc [] = acc
parse_int_from acc (c ∷ s) = parse_int_from (acc * 10 + (c - b'0')) s

abbrev pub parse_int : Text → ℕ
parse_int = parse_int_from 0

-- Code points in order, the shorter text first.
unfoldable pub text_lt : Text → Text → Bool
text_lt _ [] = false
text_lt [] (d ∷ t) = true
text_lt (c ∷ s) (d ∷ t) = ltb c d || (c == d && text_lt s t)

-- `text.count(token)`, of a token that is not empty: places that do not overlap, from the left.
unfoldable pub count_from : ℕ → Text → Text → ℕ
count_from skip token [] = 0
count_from (suc skip) token (c ∷ s) = count_from skip token s
count_from zero token (c ∷ s) =
    if starts_with token (c ∷ s)
    then 1 + count_from (length token - 1) token s
    else count_from 0 token s

abbrev pub count : Text → Text → ℕ
count token text = count_from 0 token text

-- `text.find(sub)` and one more, so that 0 stands for Python's -1.
unfoldable pub find : Text → Text → ℕ
unfolding starts_with
find sub [] = if starts_with sub [] then 1 else 0
find sub (c ∷ s) =
    let rest = find sub s in
    if starts_with sub (c ∷ s) then 1 else if rest == 0 then 0 else 1 + rest

-- `text.find(sub, start)` behind a `start` that an earlier `find` returned; both one more.
unfoldable pub find_behind : Text → ℕ → Text → ℕ
unfolding find
find_behind sub start text =
    let rest = find sub (drop (start - 1) text) in if rest == 0 then 0 else (start - 1) + rest
