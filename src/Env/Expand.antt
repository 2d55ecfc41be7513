-- ===== src/Env/Expand.antt =====
-- `expand` on templates: the pattern finds each placeholder whole, and every rule is applied.
use e2ee_app.Base.{
  ℕ, zero, suc, ◌≤◌, ◌<◌, ◌≡◌, refl, sym, ap, ◌∙◌, true, false, Option, none, some, List, [], ◌∷◌,
  ◌++◌, ◌==◌, length, length-append, All, All-append, arith, append_assoc, Option-cases, inl, inr,
}
use e2ee_app.Env.Pattern.{
  tail_none, tail_default, tail_required, search_placeholder, search_other, search_alternative,
  tail_re, whole, Groups,
}
use e2ee_app.Env.Render.{
  Piece, plain, var, default, required, IsName, IsPlain, IsPiece, placeholder, render, value, eval,
}
use e2ee_app.Env.{env_re, repl, expand}
use e2ee_app.Py.Dict.{Dict}
use e2ee_app.Py.Exn.{Result, ok, raise, ◌>>=◌}
use e2ee_app.Py.Re.Laws.{place, last_of}
use e2ee_app.Py.Re.{Found, match, match_at, search_from, group_of, is_word, consumed, skip}
use e2ee_app.Py.Sub.{sub_from, sub_from-none, sub_from-some}
use e2ee_app.Py.Text.{Text}

module _ (env : Dict) where
  abbrev sub : ℕ → Option ℕ → Text → Result Text
  sub = sub_from (repl env) env_re

  bind_cons :
      (r m : Result Text) (c : ℕ) (t : Text)
      → (do x ← r; y ← m; ok (c ∷ (t ++ (x ++ y))))
        ≡ (do z ← (do x ← r; y ← m; ok (t ++ (x ++ y))); ok (c ∷ z))
  bind_cons (ok x) (ok y) c t = refl
  bind_cons (ok x) (raise e) c t = refl
  bind_cons (raise e) m c t = refl

  -- A character at which no match begins is copied.
  sub-skip :
      (c fuel : ℕ) (s : Text) (prev : Option ℕ)
      → search_from env_re prev (c ∷ s) ≡ skip c (search_from env_re (some c) s)
      → sub (suc fuel) prev (c ∷ s) ≡ (do m ← sub (suc fuel) (some c) s; ok (c ∷ m))
  unfolding repl sub_from
  sub-skip c fuel s prev h = elim (Option-cases (search_from env_re (some c) s)) [
    | inl e ↦
        sub_from-none (repl env) env_re fuel prev (c ∷ s) (h ∙ ap (skip c) e)
        ∙ rw (sub_from-none (repl env) env_re fuel (some c) s e)
    | inr (f, e) ↦
        sub_from-some (repl env) env_re fuel prev (c ∷ s) (h ∙ ap (skip c) e)
        ∙ bind_cons (repl env f) _ c f.skipped
        ∙ rw (sub_from-some (repl env) env_re fuel (some c) s e)
  ]

  bind_append :
      (m : Result Text) (c : ℕ) (t : Text)
      → (do z ← (do y ← m; ok (t ++ y)); ok (c ∷ z)) ≡ (do y ← m; ok (c ∷ (t ++ y)))
  bind_append (ok y) c t = refl
  bind_append (raise e) c t = refl

  bind_nil : (m : Result Text) → m ≡ (do y ← m; ok ([] ++ y))
  bind_nil (ok y) = refl
  bind_nil (raise e) = refl

  sub_plain :
      (t s : Text) (fuel : ℕ) (prev : Option ℕ)
      → IsPlain t
      → sub (suc fuel) prev (t ++ s) ≡ (do m ← sub (suc fuel) (last_of prev t) s; ok (t ++ m))
  sub_plain [] s fuel prev h = bind_nil (sub (suc fuel) prev s)
  sub_plain (c ∷ t) s fuel prev h =
      sub-skip c fuel (t ++ s) prev (search_other c (t ++ s) prev h.0)
      ∙ rw (sub_plain t s fuel (some c) h.1)
          (bind_append (sub (suc fuel) (last_of (some c) t) s) c t)

  -- One placeholder, whatever stands behind it.
  sub_placeholder :
      (c d fuel : ℕ) (w r rest : Text) (prev : Option ℕ) (gs : Groups) (v : Result Text)
      → IsName (c ∷ w)
      → is_word d ≡ false
      → match tail_re (place (last_of (some c) w) (d ∷ r) ((1, c ∷ w) ∷ [])) whole
        ≡ some (place (some b'}') rest gs)
      → repl env (record {
        skipped = [];
        matched = consumed (b'$' ∷ b'{' ∷ c ∷ (w ++ d ∷ r)) rest;
        after = place (some b'}') rest gs;
      })
        ≡ v
      → sub (suc fuel) prev (b'$' ∷ b'{' ∷ c ∷ (w ++ d ∷ r))
        ≡ (do x ← v; m ← sub fuel (some b'}') rest; ok (x ++ m))
  sub_placeholder c d fuel w r rest prev gs v n out tail e =
      sub_from-some (repl env) env_re fuel prev _
        (search_placeholder c d w r rest prev gs n out tail)
      ∙ rw e

  -- The placeholders of a template.
  abbrev holes : List Piece → ℕ
  holes [] = 0
  holes (plain t ∷ ps) = holes ps
  holes (var n ∷ ps) = suc (holes ps)
  holes (default n d ∷ ps) = suc (holes ps)
  holes (required n m ∷ ps) = suc (holes ps)

  abbrev found_at : Text → Option ℕ → Text → Groups → Found
  found_at whole_text prev rest gs = record {
    skipped = [];
    matched = whole_text;
    after = place prev rest gs;
  }

  repl_default :
      (n d op mt rest : Text) (prev : Option ℕ)
      → repl env (found_at mt prev rest ((2, b':' ∷ b'-' ∷ d) ∷ (3, op) ∷ (1, n) ∷ []))
        ≡ value env (default n d)
  unfolding repl group_of
  repl_default n d op mt rest prev = refl

  repl_required :
      (n m op mt rest : Text) (prev : Option ℕ)
      → repl env (found_at mt prev rest ((2, b':' ∷ b'?' ∷ m) ∷ (3, op) ∷ (1, n) ∷ []))
        ≡ value env (required n m)
  unfolding repl group_of
  repl_required n m op mt rest prev = refl

  sub-render :
      (ps : List Piece) (fuel : ℕ) (prev : Option ℕ)
      → All IsPiece ps
      → holes ps < fuel
      → sub fuel prev (render ps) ≡ eval env ps
  unfolding eval
  sub-render ps zero prev h short = absurd (omega arith)
  sub-render [] (suc fuel) prev h short = unfold sub_from search_from match_at match in refl
  sub-render (plain t ∷ ps) (suc fuel) prev h short =
      sub_plain t (render ps) fuel prev h.0
      ∙ rw (sub-render ps (suc fuel) (last_of prev t) h.1 short)
  sub-render (var [] ∷ ps) (suc fuel) prev h short = absurd h.0
  sub-render (var (c ∷ w) ∷ ps) (suc fuel) prev h short =
      sub_placeholder c b'}' fuel w (render ps) (render ps) prev ((1, c ∷ w) ∷ [])
        (value env (var (c ∷ w))) h.0 refl (tail_none (render ps) _ _)
        (unfold repl group_of in refl)
      ∙ rw (sub-render ps fuel (some b'}') h.1 (omega arith))
  sub-render (default [] d ∷ ps) (suc fuel) prev h short = absurd h.0.0
  sub-render (default (c ∷ w) d ∷ ps) (suc fuel) prev h short =
      sub_placeholder c b':' fuel w (b'-' ∷ (d ++ b'}' ∷ render ps)) (render ps) prev _
        (value env (default (c ∷ w) d)) h.0.0 refl (tail_default d (render ps) _ _ h.0.1)
        (repl_default (c ∷ w) d _ _ _ _)
      ∙ rw (sub-render ps fuel (some b'}') h.1 (omega arith))
  sub-render (required [] m ∷ ps) (suc fuel) prev h short = absurd h.0.0
  sub-render (required (c ∷ w) m ∷ ps) (suc fuel) prev h short =
      sub_placeholder c b':' fuel w (b'?' ∷ (m ++ b'}' ∷ render ps)) (render ps) prev _
        (value env (required (c ∷ w) m)) h.0.0 refl (tail_required m (render ps) _ _ h.0.1)
        (repl_required (c ∷ w) m _ _ _ _)
      ∙ rw (sub-render ps fuel (some b'}') h.1 (omega arith))

  holes-le : (ps : List Piece) → holes ps ≤ length (render ps)
  holes-le [] = omega arith
  holes-le (plain t ∷ ps) = omega (arith, holes-le ps, length-append t (render ps))
  holes-le (var n ∷ ps) = omega (arith, holes-le ps, length-append n (b'}' ∷ render ps))
  holes-le (default n d ∷ ps) = omega (
    arith,
    holes-le ps,
    length-append n (b':' ∷ b'-' ∷ (d ++ b'}' ∷ render ps)),
    length-append d (b'}' ∷ render ps),
  )
  holes-le (required n m ∷ ps) = omega (
    arith,
    holes-le ps,
    length-append n (b':' ∷ b'?' ∷ (m ++ b'}' ∷ render ps)),
    length-append m (b'}' ∷ render ps),
  )

-- On every template, `expand` gives what Compose's rules give piece by piece: plain text is
-- copied, `${VAR}` is the value or nothing, `${VAR:-d}` is the value unless it is unset or empty,
-- and the first `${VAR:?m}` whose variable is unset or empty raises with its name and message.
pub expand-render :
    (env : Dict) (ps : List Piece) → All IsPiece ps → expand (render ps) env ≡ eval env ps
unfolding expand
expand-render env ps h =
    sub-render env ps (suc (length (render ps))) none h (omega (arith, holes-le env ps))

name-IsPlain : (w : Text) → All (λ x. is_word x ≡ true) w → IsPlain w
name-IsPlain [] h = tt
name-IsPlain (x ∷ w) h = let word = h.0 in (ground arith, name-IsPlain w h.1)

bind_map :
    (f g : Text → Text) (m : Result Text)
    → ((t : Text) → f t ≡ g t)
    → (do y ← m; ok (f y)) ≡ (do y ← m; ok (g y))
bind_map f g (ok y) h = ap ok (h y)
bind_map f g (raise e) h = refl

-- What stands behind the dollar sign of `${VAR:+alternative}`.
abbrev body : Text → Text → Text
body n a = b'{' ∷ (n ++ (b':' ∷ b'+' ∷ (a ++ b'}' ∷ [])))

body-append : (n a t : Text) → body n a ++ t ≡ b'{' ∷ (n ++ (b':' ∷ b'+' ∷ (a ++ b'}' ∷ t)))
body-append n a t = simp append_assoc

body-IsPlain : (c : ℕ) (w a : Text) → IsName (c ∷ w) → IsPlain a → IsPlain (body (c ∷ w) a)
body-IsPlain c w a n p =
    let start = n.0 in
    (
      refl,
      (
        ground arith,
        All-append (λ x. (x == b'$') ≡ false) w _ (name-IsPlain w n.1)
            (refl, (refl, All-append (λ x. (x == b'$') ≡ false) a _ p (refl, tt))),
      ),
    )

sub_alternative :
    (env : Dict) (c : ℕ) (w a : Text) (ps : List Piece) (fuel : ℕ)
    → IsName (c ∷ w)
    → IsPlain a
    → All IsPiece ps
    → holes env ps < suc fuel
    → sub env (suc fuel) none (placeholder (c ∷ w) (b':' ∷ b'+' ∷ a) (render ps))
      ≡ (do rest ← eval env ps; ok (placeholder (c ∷ w) (b':' ∷ b'+' ∷ a) rest))
sub_alternative env c w a ps fuel n p h short =
    sub-skip env b'$' fuel _ none (search_alternative c w (a ++ b'}' ∷ render ps) none n)
    ∙ ap (λ (t : Text). do m ← sub env (suc fuel) (some b'$') t; ok (b'$' ∷ m))
        (sym (body-append (c ∷ w) a (render ps)))
    ∙ ap (λ (r : Result Text). do m ← r; ok (b'$' ∷ m))
        (sub_plain env (body (c ∷ w) a) (render ps) fuel (some b'$') (body-IsPlain c w a n p))
    ∙ bind_append env (sub env (suc fuel) _ (render ps)) b'$' (body (c ∷ w) a)
    ∙ ap (λ (r : Result Text). do m ← r; ok (b'$' ∷ (body (c ∷ w) a ++ m)))
        (sub-render env ps (suc fuel) _ h short)
    ∙ bind_map _ _ (eval env ps) (λ t. ap (◌∷◌ b'$') (body-append (c ∷ w) a t))

-- A placeholder `${VAR:+alt}` that begins a text, with an alternative without `$`, stays as it is,
-- whether the variable is set or not, and the template behind it is expanded.
pub expand-alternative :
    (env : Dict) (n alternative : Text) (ps : List Piece)
    → IsName n
    → IsPlain alternative
    → All IsPiece ps
    → expand (placeholder n (b':' ∷ b'+' ∷ alternative) (render ps)) env
      ≡ (do rest ← eval env ps; ok (placeholder n (b':' ∷ b'+' ∷ alternative) rest))
unfolding expand
expand-alternative env [] a ps n p h = absurd n
expand-alternative env (c ∷ w) a ps n p h =
    sub_alternative env c w a ps (length (placeholder (c ∷ w) (b':' ∷ b'+' ∷ a) (render ps))) n p h
      (omega (
        arith,
        holes-le env ps,
        length-append w (b':' ∷ b'+' ∷ (a ++ b'}' ∷ render ps)),
        length-append a (b'}' ∷ render ps),
      ))
