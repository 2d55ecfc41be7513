-- ===== src/Audit/Body/Balanced.antt =====
-- What is cut out: of a text whose braces balance, the block up to the brace that closes it.
use e2ee_app.Audit.Body.{to_close}
use e2ee_app.Base.{
  ℕ, suc, ◌-◌, ◌≡◌, refl, sym, ap, append_assoc, ◌∙◌, false, [], ◌∷◌, ◌++◌, ◌==◌, arith,
}
use e2ee_app.Py.Text.{Text}

-- Texts whose braces balance.
pub data IsBalanced : Text → Type 0 where
  empty : IsBalanced []
  plain :
      {c : ℕ} {s : Text}
      → (c == b'{') ≡ false
      → (c == b'}') ≡ false
      → IsBalanced s
      → IsBalanced (c ∷ s)
  block : {s t : Text} → IsBalanced s → IsBalanced t → IsBalanced (b'{' ∷ (s ++ b'}' ∷ t))

plain_step :
    (c depth : ℕ) (s : Text)
    → (c == b'{') ≡ false
    → (c == b'}') ≡ false
    → to_close depth (c ∷ s) ≡ c ∷ to_close depth s
unfolding to_close
plain_step c depth s a b = rw (a, b) refl

open_step : (depth : ℕ) (s : Text) → to_close depth (b'{' ∷ s) ≡ b'{' ∷ to_close (suc depth) s
unfolding to_close
open_step depth s = ap (λ d. b'{' ∷ to_close d s) (omega arith)

close_step :
    (depth : ℕ) (s : Text) → to_close (suc (suc depth)) (b'}' ∷ s) ≡ b'}' ∷ to_close (suc depth) s
unfolding to_close
close_step depth s = rw (not_one, one_less) refl
  where
    not_one : (suc (suc depth) == 1) ≡ false
    not_one = ground arith

    one_less : suc (suc depth) - 1 ≡ suc depth
    one_less = omega arith

-- A balanced text is passed, and the depth behind it is the one before it.
to_close-IsBalanced :
    (depth : ℕ) (s rest : Text)
    → IsBalanced s
    → to_close (suc depth) (s ++ rest) ≡ s ++ to_close (suc depth) rest
to_close-IsBalanced depth _ rest IsBalanced.empty = refl
to_close-IsBalanced depth _ rest (IsBalanced.plain {c = c} {s = s} a b h) =
    plain_step c (suc depth) (s ++ rest) a b ∙ ap (λ t. c ∷ t) (to_close-IsBalanced depth s rest h)
to_close-IsBalanced depth _ rest (IsBalanced.block {s = s} {t = t} h k) =
    open_step (suc depth) ((s ++ b'}' ∷ t) ++ rest)
    ∙ ap (λ u. b'{' ∷ u)
        (ap (to_close (suc (suc depth))) (append_assoc s (b'}' ∷ t) rest)
          ∙ to_close-IsBalanced (suc depth) s (b'}' ∷ t ++ rest) h
          ∙ ap (λ u. s ++ u)
              (close_step depth (t ++ rest)
                ∙ ap (λ u. b'}' ∷ u) (to_close-IsBalanced depth t rest k))
          ∙ sym (append_assoc s (b'}' ∷ t) (to_close (suc depth) rest)))

-- The block of a balanced text ends at its own closing brace, whatever stands behind it.
pub to_close-block :
    (s rest : Text)
    → IsBalanced s
    → to_close 0 (b'{' ∷ (s ++ b'}' ∷ rest)) ≡ b'{' ∷ (s ++ b'}' ∷ [])
unfolding to_close
to_close-block s rest h = ap (λ u. b'{' ∷ u) (to_close-IsBalanced 0 s (b'}' ∷ rest) h)
