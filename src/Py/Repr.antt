-- ===== src/Py/Repr.antt =====
-- `str(v)` and `repr(v)`. A character beyond ASCII is taken for a printable one.
use e2ee_app.Base.{
  ℕ, suc, ◌+◌, ◌-◌, ◌/◌, ◌%◌, true, false, not, ◌&&◌, ◌||◌, [], ◌∷◌, ◌++◌, ltb, leb, ◌==◌,
  if◌then◌else◌,
}
use e2ee_app.Py.Text.{Text, codes, contains, decimal}
use e2ee_app.Py.Value.{
  Value, null, bool, int, neg_int, str, list, dict, other, Items, nil, cons, Fields, end, field,
}

abbrev hex_digit : ℕ → ℕ
hex_digit n = if leb n 9 then b'0' + n else b'a' + (n - 10)

-- One character of the text between quotes `q`.
unfoldable pub repr_char : ℕ → ℕ → Text
repr_char q c =
    if c == q || c == b'\\'
    then b'\\' ∷ c ∷ []
    else if c == b'\n'
    then codes "\\n"
    else if c == b'\r'
    then codes "\\r"
    else if c == b'\t'
    then codes "\\t"
    else if ltb c 32 || c == 127
    then b'\\' ∷ b'x' ∷ hex_digit (c / 16) ∷ hex_digit (c % 16) ∷ []
    else c ∷ []

unfoldable pub repr_chars : ℕ → Text → Text
unfolding repr_char
repr_chars q [] = []
repr_chars q (c ∷ s) = repr_char q c ++ repr_chars q s

-- Single quotes, unless the text holds one and no double quote.
unfoldable pub repr_text : Text → Text
unfolding repr_chars contains
repr_text s =
    let q = if contains (codes "'") s && not (contains (codes "\"") s) then b'"' else b'\'' in
    q ∷ (repr_chars q s ++ q ∷ [])

unfoldable mutual
  pub repr : Value → Text
  repr null = codes "None"
  repr (bool true) = codes "True"
  repr (bool false) = codes "False"
  repr (int n) = decimal n
  repr (neg_int n) = b'-' ∷ decimal (suc n)
  repr (str s) = repr_text s
  repr (list vs) = b'[' ∷ (repr_items vs ++ codes "]")
  repr (dict fs) = b'{' ∷ (repr_fields fs ++ codes "}")
  repr (other _ s _) = s

  repr_items : Items → Text
  repr_items nil = []
  repr_items (cons v nil) = repr v
  repr_items (cons v (cons w vs)) = repr v ++ (codes ", " ++ repr_items (cons w vs))

  repr_fields : Fields → Text
  repr_fields end = []
  repr_fields (field k v end) = repr k ++ (codes ": " ++ repr v)
  repr_fields (field k v (field j w fs)) =
      repr k ++ (codes ": " ++ (repr v ++ (codes ", " ++ repr_fields (field j w fs))))

-- `str(v)`
unfoldable pub to_str : Value → Text
unfolding repr repr_text decimal
to_str (str s) = s
to_str v = repr v
