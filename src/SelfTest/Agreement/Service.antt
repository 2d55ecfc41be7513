-- ===== src/SelfTest/Agreement/Service.antt =====
-- The loops of the copies of S28 and S74 beside those of the checks.
use e2ee_app.Audit.App.Service.{mock_callbacks, on_start_re, s74_needs, starts_foreground}
use e2ee_app.Audit.Body.{body_of, next_depth, to_close}
use e2ee_app.Audit.Strip.{strip_plain}
use e2ee_app.Base.{
  ℕ, ◌≡◌, ◌↔◌, refl, ap, ◌==◌, ◌&&◌, if◌then◌else◌, Bool, true, Option, none, some, List, [], ◌∷◌,
  sym, ◌∙◌,
}
use e2ee_app.Needs.Laws.{AreMet}
use e2ee_app.Py.Re.{Found, search_re}
use e2ee_app.Py.Text.{Text}
use e2ee_app.SelfTest.Service.{
  s28_callbacks, s74_body, s74_mirror, s74_promotes, s74_starts_foreground,
}

pub s28_callbacks-mock_callbacks : (ms : List Found) → s28_callbacks ms ≡ mock_callbacks ms
unfolding s28_callbacks mock_callbacks
s28_callbacks-mock_callbacks [] = refl
s28_callbacks-mock_callbacks (m ∷ ms) = rw (s28_callbacks-mock_callbacks ms) refl

s74_body-to_close : (depth : ℕ) (code : Text) → s74_body depth code ≡ to_close depth code
unfolding s74_body to_close
s74_body-to_close depth [] = refl
s74_body-to_close depth (c ∷ code) =
    ap (λ rest. if c == b'}' && depth == 1 then c ∷ [] else c ∷ rest)
      (s74_body-to_close (next_depth c depth) code)

promotes_iff : (code : Text) → s74_starts_foreground code ≡ starts_foreground code
unfolding body_of
promotes_iff code = on_match (search_re on_start_re code)
  where
    on_match :
        (m : Option Found)
        → (elim m as (λ _. Bool) [
          | none ↦ true
          | some f ↦ s74_promotes (s74_body 0 (b'{' ∷ f.after.rest))
        ])
          ≡ (elim (elim m as (λ _. Option Text) [
            | none ↦ none
            | some f ↦ some (to_close 0 (b'{' ∷ f.after.rest))
          ])
              as (λ _. Bool) [ none ↦ true | some body ↦ s74_promotes body ])
    on_match none = refl
    on_match (some f) = ap s74_promotes (s74_body-to_close 0 (b'{' ∷ f.after.rest))

-- The needs of S74 and of its copy.
pub s74_same :
    (text : Text) → AreMet s74_needs (strip_plain text) ↔ AreMet s74_mirror (strip_plain text)
s74_same text =
    let same = promotes_iff (strip_plain text) in
    (
      λ (a, (b, (c, (d, (e, (f, _)))))). (a, (b, (c, (d, (e, (same ∙ f, tt)))))),
      λ (a, (b, (c, (d, (e, (f, _)))))). (a, (b, (c, (d, (e, (sym same ∙ f, tt)))))),
    )
