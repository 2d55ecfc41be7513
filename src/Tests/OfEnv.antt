-- ===== src/Tests/OfEnv.antt =====
-- infra/scripts/validate_env.py on concrete texts.
use e2ee_app.Base.{◌≡◌, refl, none, some, List, [], ◌∷◌, ◌++◌, All, if◌then◌else◌}
use e2ee_app.Env.EnvFile.{IsUnquoted, load_line-assignment, load_line_quoted}
use e2ee_app.Env.Expand.{expand-render, expand-alternative}
use e2ee_app.Env.Render.{Piece, plain, var, default, required, placeholder, render, eval}
use e2ee_app.Env.Walk.{error_of, first_error, strings, IsCaught, walk-first_error, main-eq-passed}
use e2ee_app.Env.{expand, walk, load_line, unquote, load_env_file}
use e2ee_app.Env.Main.{required_vars, main, passed}
use e2ee_app.Py.Dict.{Dict, lookup, merge}
use e2ee_app.Py.Exn.{Result, ok, ◌>>=◌}
use e2ee_app.Py.Text.{Text, codes, text_eq, lstrip, rstrip, strip}
use e2ee_app.Py.Value.{Value, str, dict, end, field, key}

abbrev env : Dict
env = (codes "HOST", codes "db") ∷ []

abbrev template : List Piece
template =
    var (codes "HOST")
    ∷ plain (codes ":")
    ∷ default (codes "PORT") (codes "5432")
    ∷ required (codes "HOST") (codes "host")
    ∷ []

expands_host : expand (codes "${HOST}:${PORT:-5432}") env ≡ ok (codes "db:5432")
unfolding expand e2ee_app.Py.Re.search_from e2ee_app.Env.repl e2ee_app.Py.Re.group_of lookup text_eq
expands_host = refl

keeps_alternative : expand (codes "${HOST:+x}") env ≡ ok (codes "${HOST:+x}")
unfolding expand e2ee_app.Py.Re.search_from
keeps_alternative = refl

expand-render_example : expand (render template) env ≡ eval env template
expand-render_example = expand-render env template (
  (refl, (refl, (refl, (refl, tt)))),
  (
    (refl, tt),
    (
      ((refl, (refl, (refl, (refl, tt)))), (refl, (refl, (refl, (refl, tt))))),
      (((refl, (refl, (refl, (refl, tt)))), (refl, (refl, (refl, (refl, tt))))), tt),
    ),
  ),
)

expand-alternative_example :
    expand (placeholder (codes "HOST") (codes ":+x") (render template)) env
    ≡ (do rest ← eval env template; ok (placeholder (codes "HOST") (codes ":+x") rest))
expand-alternative_example =
    expand-alternative env (codes "HOST") (codes "x") template (refl, (refl, (refl, (refl, tt))))
      (refl, tt)
      (
        (refl, (refl, (refl, (refl, tt)))),
        (
          (refl, tt),
          (
            ((refl, (refl, (refl, (refl, tt)))), (refl, (refl, (refl, (refl, tt))))),
            (((refl, (refl, (refl, (refl, tt)))), (refl, (refl, (refl, (refl, tt))))), tt),
          ),
        ),
      )

-- `services: {kong: ${HOST:?h}}`
abbrev compose : Value
compose =
    dict (field (key "services") (dict (field (key "kong") (str (codes "${HOST:?h}")) end)) end)

walk-first_error_example : error_of (walk compose []) ≡ first_error [] (strings compose)
walk-first_error_example = walk-first_error [] compose

abbrev load : Text → Result Value
load text = ok compose

passes : main load (some (codes "${HOST:?h}")) none env ≡ ok (passed (codes "HOST" ∷ []))
unfolding main required_vars walk expand e2ee_app.Env.repl e2ee_app.Py.Re.group_of lookup merge
    load_env_file e2ee_app.Env.Main.service_names e2ee_app.Py.Value.find e2ee_app.Py.Value.key_eq
    e2ee_app.Env.Main.record_failure e2ee_app.Py.Dict.remove
passes = refl

main-eq-passed_example :
    (doc : Value) × (load (codes "${HOST:?h}") ≡ ok doc)
    × (first_error (merge (load_env_file none) env) (strings doc) ≡ none)
    × (required_vars (codes "${HOST:?h}") ≡ codes "HOST" ∷ [])
    × All (IsCaught doc (merge (load_env_file none) env)) (codes "HOST" ∷ [])
main-eq-passed_example =
    main-eq-passed load (codes "${HOST:?h}") none env (codes "HOST" ∷ []) passes

-- `A="b c"`
load_line-assignment_example :
    (u : Text) × IsUnquoted (codes "\"b c\"") u
    × ((j : Text)
        → lookup j (load_line (codes "A" ++ b'=' ∷ codes "\"b c\"") env)
          ≡ (if text_eq (codes "A") j then some u else lookup j env))
unfolding lstrip rstrip e2ee_app.Py.Text.is_space
load_line-assignment_example =
    load_line-assignment (codes "A") (codes "\"b c\"") env (refl, (refl, refl), tt) (refl, refl)

load_line_quoted_example :
    lookup (codes "A") (load_line (codes "A" ++ b'=' ∷ b'"' ∷ (codes " # x=" ++ b'"' ∷ [])) env)
    ≡ some (codes " # x=")
unfolding e2ee_app.Py.Text.is_space
load_line_quoted_example =
    load_line_quoted (codes "A") (codes " # x=") b'"' env (refl, (refl, refl), tt) refl
