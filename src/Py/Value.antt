-- ===== src/Py/Value.antt =====
-- The values that a YAML document holds: the scalars, lists and mappings. A float, a date or
-- another object is known by its type's name, its text and its truth value.
use e2ee_app.Base.{
  ℕ, Bool, true, false, not, ◌&&◌, Option, none, some, List, [], ◌∷◌, String, ◌==◌, is_nil,
  if◌then◌else◌,
}
use e2ee_app.Py.Text.{Text, codes, text_eq}

mutual
  pub data Value : Type 0 where
    null : Value
    bool : Bool → Value
    -- `int n` is n, `neg_int n` is -(n + 1)
    int : ℕ → Value
    neg_int : ℕ → Value
    str : Text → Value
    list : Items → Value
    dict : Fields → Value
    other : Text → Text → Bool → Value

  pub data Items : Type 0 where
    nil : Items
    cons : Value → Items → Items

  pub data Fields : Type 0 where
    end : Fields
    field : Value → Value → Fields → Fields

abbrev pub elements : Items → List Value
elements nil = []
elements (cons v vs) = v ∷ elements vs

-- `d.items()`
abbrev pub entries : Fields → List (Value × Value)
entries end = []
entries (field k v fs) = (k, v) ∷ entries fs

-- `d.keys()`
abbrev pub keys : Fields → List Value
keys end = []
keys (field k v fs) = k ∷ keys fs

abbrev bit : Bool → ℕ
bit true = 1
bit false = 0

-- `a == b` on the values that can be keys; Python's `True` is 1 and `False` is 0.
unfoldable pub key_eq : Value → Value → Bool
unfolding text_eq
key_eq null null = true
key_eq (bool a) (bool b) = bit a == bit b
key_eq (bool a) (int n) = bit a == n
key_eq (int n) (bool a) = n == bit a
key_eq (int n) (int m) = n == m
key_eq (neg_int n) (neg_int m) = n == m
key_eq (str s) (str t) = text_eq s t
key_eq (other k s _) (other l t _) = text_eq k l && text_eq s t
key_eq _ _ = false

-- `d.get(k)` with `none` for a missing key.
unfoldable pub find : Value → Fields → Option Value
find k end = none
find k (field j v fs) = if key_eq j k then some v else find k fs

-- `d.get(k)`, which is `None` for a missing key.
abbrev pub get : Value → Fields → Value
get k fs = elim (find k fs) [ none ↦ null | some v ↦ v ]

-- `d.get(k, default)`
abbrev pub get_default : Value → Value → Fields → Value
get_default k d fs = elim (find k fs) [ none ↦ d | some v ↦ v ]

-- `k in d`
abbrev pub has_key : Value → Fields → Bool
has_key k fs = elim (find k fs) [ none ↦ false | some v ↦ true ]

-- A key that is a literal text.
abbrev pub key : String → Value
key s = str (codes s)

-- `bool(v)`
unfoldable pub truthy : Value → Bool
truthy null = false
truthy (bool b) = b
truthy (int n) = not (n == 0)
truthy (neg_int n) = true
truthy (str s) = not (is_nil s)
truthy (list nil) = false
truthy (list (cons _ _)) = true
truthy (dict end) = false
truthy (dict (field _ _ _)) = true
truthy (other _ _ b) = b

-- `type(v).__name__`
unfoldable pub type_name : Value → Text
type_name null = codes "NoneType"
type_name (bool _) = codes "bool"
type_name (int _) = codes "int"
type_name (neg_int _) = codes "int"
type_name (str _) = codes "str"
type_name (list _) = codes "list"
type_name (dict _) = codes "dict"
type_name (other k _ _) = k

abbrev pub is_dict : Value → Bool
is_dict (dict _) = true
is_dict _ = false

abbrev pub is_list : Value → Bool
is_list (list _) = true
is_list _ = false

abbrev pub is_str : Value → Bool
is_str (str _) = true
is_str _ = false

abbrev pub is_null : Value → Bool
is_null null = true
is_null _ = false

abbrev pub empty_dict : Value
empty_dict = dict end
