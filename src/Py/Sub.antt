-- ===== src/Py/Sub.antt =====
-- `re.sub` with a function, which may raise.
use e2ee_app.Base.{◌≡◌, ℕ, zero, suc, Option, none, some, ◌++◌, length}
use e2ee_app.Py.Exn.{Result, ok, ◌>>=◌}
use e2ee_app.Py.Re.{Re, Found, search_from}
use e2ee_app.Py.Text.{Text}

-- The text behind `prev`, with each match replaced, from left to right. The fuel bounds the
-- number of matches; the pattern never matches the empty text.
unfoldable pub sub_from : (Found → Result Text) → Re → ℕ → Option ℕ → Text → Result Text
sub_from repl e zero prev text = ok text
sub_from repl e (suc fuel) prev text = elim (search_from e prev text) [
  | none ↦ ok text
  | some f ↦
      let more = sub_from repl e fuel f.after.prev f.after.rest in
      do r ← repl f; m ← more; ok (f.skipped ++ (r ++ m))
]

-- `re.sub(e, repl, text)`
unfoldable pub sub_re : (Found → Result Text) → Re → Text → Result Text
unfolding sub_from
sub_re repl e text = sub_from repl e (suc (length text)) none text

module _ (repl : Found → Result Text) (e : Re) (fuel : ℕ) (prev : Option ℕ) (text : Text) where
  pub sub_from-none :
      search_from e prev text ≡ none → sub_from repl e (suc fuel) prev text ≡ ok text
  unfolding sub_from
  sub_from-none h = rw (h, sub_from)

  pub sub_from-some :
      {f : Found}
      → search_from e prev text ≡ some f
      → sub_from repl e (suc fuel) prev text ≡ (do
        r ← repl f
        m ← sub_from repl e fuel f.after.prev f.after.rest
        ok (f.skipped ++ (r ++ m)))
  unfolding sub_from
  sub_from-some h = rw (h, sub_from)
