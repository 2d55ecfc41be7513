-- ===== src/Env/Render.antt =====
-- Templates: the texts that `expand` is meant for, and what Compose's rules make of them.
use e2ee_app.Base.{◌≡◌, true, false, List, [], ◌∷◌, ◌++◌, ◌==◌, All, if◌then◌else◌}
use e2ee_app.Env.{is_name_start, not_close, is_unset, or_empty, required_message}
use e2ee_app.Py.Dict.{Dict, lookup}
use e2ee_app.Py.Exn.{value_error, Result, ok, raise, ◌>>=◌}
use e2ee_app.Py.Re.{is_word}
use e2ee_app.Py.Text.{Text}

pub data Piece : Type 0 where
  -- text without `$`
  plain : Text → Piece
  -- `${VAR}`, `${VAR:-default}`, `${VAR:?message}`
  var : Text → Piece
  default : Text → Text → Piece
  required : Text → Text → Piece

abbrev pub IsName : Text → Type 0
IsName [] = ⊥
IsName (c ∷ w) = (is_name_start c ≡ true) × All (λ x. is_word x ≡ true) w

abbrev pub IsArgument : Text → Type 0
IsArgument = All (λ x. not_close x ≡ true)

abbrev pub IsPlain : Text → Type 0
IsPlain = All (λ x. (x == b'$') ≡ false)

abbrev pub IsPiece : Piece → Type 0
IsPiece (plain t) = IsPlain t
IsPiece (var n) = IsName n
IsPiece (default n d) = IsName n × IsArgument d
IsPiece (required n m) = IsName n × IsArgument m

abbrev pub placeholder : Text → Text → Text → Text
placeholder n op rest = b'$' ∷ b'{' ∷ (n ++ (op ++ b'}' ∷ rest))

-- The text of a template in front of a rest.
abbrev pub render : List Piece → Text
render [] = []
render (plain t ∷ ps) = t ++ render ps
render (var n ∷ ps) = placeholder n [] (render ps)
render (default n d ∷ ps) = placeholder n (b':' ∷ b'-' ∷ d) (render ps)
render (required n m ∷ ps) = placeholder n (b':' ∷ b'?' ∷ m) (render ps)

-- Compose's rules, one piece at a time.
abbrev pub value : Dict → Piece → Result Text
value env (plain t) = ok t
value env (var n) = ok (or_empty (lookup n env))
value env (default n d) = ok (if is_unset (lookup n env) then d else or_empty (lookup n env))
value env (required n m) =
    if is_unset (lookup n env)
    then raise (value_error (required_message n m))
    else ok (or_empty (lookup n env))

unfoldable pub eval : Dict → List Piece → Result Text
eval env [] = ok []
eval env (p ∷ ps) = do v ← value env p; rest ← eval env ps; ok (v ++ rest)
