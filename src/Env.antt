-- ===== src/Env.antt =====
-- infra/scripts/validate_env.py: the simulation of Compose's variable expansion.
-- The .env file is its text, and the environment a dictionary.
pub mod Main
pub mod Render
pub mod Pattern
pub mod Expand
pub mod Walk
pub mod EnvFile
use e2ee_app.Base.{
  ℕ, zero, suc, Bool, true, false, not, ◌&&◌, ◌||◌, Option, none, some, List, [], ◌∷◌, ◌++◌, is_nil,
  ◌==◌, ltb, if◌then◌else◌, map,
}
use e2ee_app.Py.Dict.{Dict, lookup, insert, merge, remove}
use e2ee_app.Py.Exn.{
  Exn, value_error, type_error, attribute_error, key_error, Result, ok, raise, ◌>>=◌,
}
use e2ee_app.Py.Re.{
  Re, cls, seq, alt, star, group, char, literal, opt, is_word, Found, group_of, group_text,
  find_iter,
}
use e2ee_app.Py.Sub.{sub_re}
use e2ee_app.Py.Text.{Text, codes, in_range, text_eq, starts_with, contains, strip, splitlines}
use e2ee_app.Py.Value.{
  Value, null, str, list, dict, Items, nil, cons, Fields, end, field, find, key,
}

-- `[A-Za-z_]` and `[^}]`
abbrev pub is_name_start : ℕ → Bool
is_name_start c = in_range b'A' b'Z' c || in_range b'a' b'z' c || c == b'_'

abbrev pub not_close : ℕ → Bool
not_close c = not (c == b'}')

-- `:-|:\\?\?|\+`
abbrev pub operator_re : Re
operator_re =
    alt (literal (codes ":-"))
      (alt (seq (char b':') (seq (opt (char b'\\')) (char b'?'))) (char b'+'))

abbrev pub name_re : Re
name_re = group 1 (seq (cls is_name_start) (star (cls is_word)))

abbrev pub suffix_re : Re
suffix_re = opt (group 2 (seq (group 3 operator_re) (star (cls not_close))))

-- `ENV_RE`: `\$\{([A-Za-z_][A-Za-z0-9_]*)((:-|:\\?\?|\+)[^}]*)?\}`
abbrev pub env_re : Re
env_re = seq (char b'$') (seq (char b'{') (seq name_re (seq suffix_re (char b'}'))))

-- `v in (None, "")`
abbrev pub is_unset : Option Text → Bool
is_unset none = true
is_unset (some v) = is_nil v

-- `v if v is not None else ""`
abbrev pub or_empty : Option Text → Text
or_empty none = []
or_empty (some v) = v

abbrev pub required_message : Text → Text → Text
required_message var arg = codes "required env var '" ++ (var ++ (codes "' unset: " ++ arg))

-- `repl` where an operator stands behind the name: its second character decides.
unfoldable pub apply_operator : Text → Text → Option Text → Text → Result Text
apply_operator var whole v (c ∷ kind ∷ arg) =
    if kind == b'-'
    then ok (if is_unset v then arg else or_empty v)
    else if kind == b'?'
    then (if is_unset v then raise (value_error (required_message var arg)) else ok (or_empty v))
    else if kind == b'+'
    then ok (if is_unset v then [] else arg)
    else ok whole
apply_operator var whole v _ = ok whole

unfoldable pub repl : Dict → Found → Result Text
unfolding apply_operator
repl env m =
    let var = group_text 1 m in
    elim (group_of 2 m.after.groups) [
      | none ↦ ok (or_empty (lookup var env))
      | some op ↦ apply_operator var m.matched (lookup var env) op
    ]

-- `ENV_RE.sub(repl, value)`
unfoldable pub expand : Text → Dict → Result Text
unfolding sub_re
expand value env = sub_re (repl env) env_re value

unfoldable mutual
  pub walk : Value → Dict → Result Value
  walk (dict fs) env = do fs' ← walk_fields fs env; ok (dict fs')
  walk (list vs) env = do vs' ← walk_items vs env; ok (list vs')
  walk (str s) env = do s' ← expand s env; ok (str s')
  walk v env = ok v

  pub walk_items : Items → Dict → Result Items
  walk_items nil env = ok nil
  walk_items (cons v vs) env = do v' ← walk v env; vs' ← walk_items vs env; ok (cons v' vs')

  pub walk_fields : Fields → Dict → Result Fields
  walk_fields end env = ok end
  walk_fields (field k v fs) env = do v' ← walk v env; fs' ← walk_fields fs env; ok (field k v' fs')

-- `line.split("=", 1)`: what stands before and behind the first `=`; `none` without one.
unfoldable pub partition : Text → Option (Text × Text)
partition [] = none
partition (c ∷ s) =
    let rest = partition s in
    if c == b'=' then some ([], s) else elim rest [ none ↦ none | some (k, v) ↦ some (c ∷ k, v) ]

-- `v[-1]`
abbrev pub last_char : ℕ → Text → ℕ
last_char c [] = c
last_char c (d ∷ s) = last_char d s

-- `v[:-1]`
abbrev pub init : Text → Text
init [] = []
init (c ∷ []) = []
init (c ∷ d ∷ s) = c ∷ init (d ∷ s)

-- The value without surrounding quotes of one kind.
unfoldable pub unquote : Text → Text
unquote (c ∷ d ∷ s) =
    if c == last_char d s && (c == b'\'' || c == b'"') then init (d ∷ s) else c ∷ d ∷ s
unquote v = v

-- What a stripped line does to the dictionary.
unfoldable pub store_line : Text → Dict → Dict
store_line line env =
    if is_nil line || starts_with (codes "#") line then env else elim (partition line) [
      | none ↦ env
      | some (k, v) ↦ insert (strip k) (unquote (strip v)) env
    ]

-- The body of the loop over the lines.
unfoldable pub load_line : Text → Dict → Dict
load_line raw env = store_line (strip raw) env

unfoldable pub load_lines : List Text → Dict → Dict
unfolding load_line store_line partition unquote strip starts_with
load_lines [] env = env
load_lines (raw ∷ lines) env = load_lines lines (load_line raw env)

-- `load_env_file`, on the text of the path if it is a file.
unfoldable pub load_env_file : Option Text → Dict
unfolding load_lines splitlines
load_env_file none = []
load_env_file (some text) = load_lines (splitlines text) []
