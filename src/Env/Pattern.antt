-- ===== src/Env/Pattern.antt =====
-- How `ENV_RE` matches a placeholder, step by step.
use e2ee_app.Base.{
  ℕ, suc, ◌≡◌, refl, ap, ◌∙◌, true, false, Option, none, some, List, [], ◌∷◌, ◌++◌, ◌==◌, length,
  length-append, arith, append_assoc,
}
use e2ee_app.Env.Render.{IsName, IsArgument}
use e2ee_app.Env.{not_close, operator_re, name_re, suffix_re, env_re}
use e2ee_app.Py.Re.Laws.{
  place, last_of, consumed-append, star_run, star_run_none, match-alt_left, match-alt_right,
  match_at-eq-some, match_at-eq-none, search_here, search_later,
}
use e2ee_app.Py.Re.{
  Re, cls, seq, literal, eps, group, opt, alt, star, char, Pos, skip, match, search_from, is_word,
  consumed, step_class, star_rounds,
}
use e2ee_app.Py.Text.{Text, codes}

abbrev pub Groups : Type 0
Groups = List (ℕ × Text)

pub name_match :
    (c d : ℕ) (w r : Text) (prev : Option ℕ) (g : Groups) (k : Pos → Option Pos) {e : Pos}
    → IsName (c ∷ w)
    → is_word d ≡ false
    → k (place (last_of (some c) w) (d ∷ r) ((1, c ∷ w) ∷ g)) ≡ some e
    → match name_re (place prev (c ∷ (w ++ d ∷ r)) g) k ≡ some e
unfolding match step_class
name_match c d w r prev g k {e} h out next = rw h.0 (
    star_run is_word w r d (suc (length (w ++ d ∷ r))) (some c) g _ h.1 out
      (omega (arith, length-append w (d ∷ r))) (rw (consumed-append (c ∷ w) (d ∷ r)) next))

abbrev pub tail_re : Re
tail_re = seq suffix_re (char b'}')

abbrev pub whole : Pos → Option Pos
whole s = some s

pub tail_none :
    (rest : Text) (prev : Option ℕ) (g : Groups)
    → match tail_re (place prev (b'}' ∷ rest) g) whole ≡ some (place (some b'}') rest g)
unfolding match step_class
tail_none rest prev g = refl

-- What follows the argument: the group of the operator ends, and the brace closes.
abbrev close : Text → Pos → Option Pos
close full s' =
    match (char b'}') (place s'.prev s'.rest ((2, consumed full s'.rest) ∷ s'.groups)) whole

argument_run :
    (op d rest : Text) (prev : Option ℕ) (g : Groups)
    → IsArgument d
    → star_rounds
        (match (cls not_close))
        (suc (length (d ++ b'}' ∷ rest)))
        (place prev (d ++ b'}' ∷ rest) g)
        (close (op ++ (d ++ b'}' ∷ rest)))
      ≡ some (place (some b'}') rest ((2, op ++ d) ∷ g))
argument_run op d rest prev g h =
    star_run not_close d rest b'}' (suc (length (d ++ b'}' ∷ rest))) prev g
      (close (op ++ (d ++ b'}' ∷ rest))) h refl (omega (arith, length-append d (b'}' ∷ rest)))
      (rw (← append_assoc, consumed-append (op ++ d) (b'}' ∷ rest))
        (unfold match step_class in refl))

abbrev op_group : Re
op_group = group 2 (seq (group 3 operator_re) (star (cls not_close)))

-- The continuation behind group 3, in the text from the operator on.
abbrev behind_op : Text → Groups → Pos → Option Pos
behind_op full g s' =
    match (star (cls not_close)) (place s'.prev s'.rest ((3, consumed full s'.rest) ∷ s'.groups))
      (close full)

abbrev behind_suffix : Pos → Option Pos
behind_suffix s' = match (char b'}') s' whole

pub tail_default :
    (d rest : Text) (prev : Option ℕ) (g : Groups)
    → IsArgument d
    → match tail_re (place prev (b':' ∷ b'-' ∷ (d ++ b'}' ∷ rest)) g) whole
      ≡ some (place (some b'}') rest ((2, b':' ∷ b'-' ∷ d) ∷ (3, b':' ∷ b'-' ∷ []) ∷ g))
unfolding match step_class
tail_default d rest prev g h =
    let full : Text = b':' ∷ b'-' ∷ (d ++ b'}' ∷ rest) in
    let s : Pos = place prev full g in
    let arg : Text = d ++ b'}' ∷ rest in
    match-alt_left op_group eps s behind_suffix (
      match-alt_left (literal (codes ":-"))
        (alt (seq (char b':') (seq (opt (char b'\\')) (char b'?'))) (char b'+')) s
        (behind_op full g)
        (argument_run (b':' ∷ b'-' ∷ []) d rest (some b'-') ((3, consumed full arg) ∷ g) h))
    ∙ ap (λ (t : Text). some (place (some b'}') rest ((2, b':' ∷ b'-' ∷ d) ∷ (3, t) ∷ g)))
        (consumed-append (b':' ∷ b'-' ∷ []) arg)

pub tail_required :
    (d rest : Text) (prev : Option ℕ) (g : Groups)
    → IsArgument d
    → match tail_re (place prev (b':' ∷ b'?' ∷ (d ++ b'}' ∷ rest)) g) whole
      ≡ some (place (some b'}') rest ((2, b':' ∷ b'?' ∷ d) ∷ (3, b':' ∷ b'?' ∷ []) ∷ g))
unfolding match step_class
tail_required d rest prev g h =
    let full : Text = b':' ∷ b'?' ∷ (d ++ b'}' ∷ rest) in
    let s : Pos = place prev full g in
    let arg : Text = d ++ b'}' ∷ rest in
    match-alt_left op_group eps s behind_suffix (
      match-alt_left (seq (char b':') (seq (opt (char b'\\')) (char b'?'))) (char b'+') s
        (behind_op full g)
        (match-alt_right (char b'\\') eps (place (some b':') (b'?' ∷ arg) g)
            (λ s'. match (char b'?') s' (behind_op full g)) refl
          ∙ argument_run (b':' ∷ b'?' ∷ []) d rest (some b'?') ((3, consumed full arg) ∷ g) h))
    ∙ ap (λ (t : Text). some (place (some b'}') rest ((2, b':' ∷ b'?' ∷ d) ∷ (3, t) ∷ g)))
        (consumed-append (b':' ∷ b'?' ∷ []) arg)

-- A placeholder whose tail matches is found at once, up to its brace.
pub search_placeholder :
    (c d : ℕ) (w r rest : Text) (prev : Option ℕ) (gs : Groups)
    → IsName (c ∷ w)
    → is_word d ≡ false
    → match tail_re (place (last_of (some c) w) (d ∷ r) ((1, c ∷ w) ∷ [])) whole
      ≡ some (place (some b'}') rest gs)
    → search_from env_re prev (b'$' ∷ b'{' ∷ c ∷ (w ++ d ∷ r))
      ≡ some (record {
        skipped = [];
        matched = consumed (b'$' ∷ b'{' ∷ c ∷ (w ++ d ∷ r)) rest;
        after = place (some b'}') rest gs;
      })
search_placeholder c d w r rest prev gs n out tail = search_here env_re prev _ (
    match_at-eq-some env_re prev _ (
      unfold match step_class in
      name_match c d w r (some b'{') [] (λ s'. match tail_re s' whole) n out tail))

-- Where the text does not begin with a dollar sign, the search goes on behind its first character.
pub search_other :
    (c : ℕ) (s : Text) (prev : Option ℕ)
    → (c == b'$') ≡ false
    → search_from env_re prev (c ∷ s) ≡ skip c (search_from env_re (some c) s)
search_other c s prev h =
    search_later env_re prev c s
      (match_at-eq-none env_re prev (c ∷ s) (unfold match step_class in rw h refl))

tail_reject :
    (x : ℕ) (s : Text) (prev : Option ℕ) (g : Groups)
    → is_word x ≡ true
    → match tail_re (place prev (x ∷ s) g) whole ≡ none
unfolding match step_class
tail_reject x s prev g h = ground arith

match_alternative :
    (c : ℕ) (w r : Text) (prev : Option ℕ)
    → IsName (c ∷ w)
    → match env_re (place prev (b'$' ∷ b'{' ∷ c ∷ (w ++ b':' ∷ b'+' ∷ r)) []) (λ s'. some s') ≡ none
unfolding match step_class
match_alternative c w r prev n =
    let name : Text = c ∷ (w ++ b':' ∷ b'+' ∷ r) in
    rw n.0 (
      star_run_none is_word w (b'+' ∷ r) b':' (suc (length (w ++ b':' ∷ b'+' ∷ r))) (some c) []
        (λ s'. match tail_re (place s'.prev s'.rest ((1, consumed name s'.rest) ∷ s'.groups)) whole)
        n.1 refl (λ p x s h. tail_reject x s p _ h) (λ p. refl))

-- At `${VAR:+` the pattern does not match: it knows `+` only without the colon.
pub search_alternative :
    (c : ℕ) (w r : Text) (prev : Option ℕ)
    → IsName (c ∷ w)
    → let s = b'{' ∷ c ∷ (w ++ b':' ∷ b'+' ∷ r) in
      search_from env_re prev (b'$' ∷ s) ≡ skip b'$' (search_from env_re (some b'$') s)
search_alternative c w r prev n =
    let s : Text = b'{' ∷ c ∷ (w ++ b':' ∷ b'+' ∷ r) in
    search_later env_re prev b'$' s
      (match_at-eq-none env_re prev (b'$' ∷ s) (match_alternative c w r prev n))
