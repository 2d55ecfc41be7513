-- ===== src/Py/Sort/Perm.antt =====
-- Two lists of texts are sorted to the same list exactly where one is a permutation of the other.
use e2ee_app.Base.{◌≡◌, refl, sym, ap, ◌∙◌, ◌↔◌, inl, inr, true, false, List, [], ◌∷◌, Bool-cases}
use e2ee_app.Py.Sort.{insert, sorted}
use e2ee_app.Py.Text.Order.{text_lt_asym, text_lt_total, text_lt_trans}
use e2ee_app.Py.Text.{Text, text_lt}
use mathlib.Core.List.Perm
use mathlib.Core.List.{Perm, Permᴰ}
use mathlib.Core.Logic.{∥∥₁_elim}

insert-perm : (t : Text) (ts : List Text) → Perm (insert t ts) (t ∷ ts)
unfolding insert
insert-perm t [] = Perm.refl _
insert-perm t (s ∷ ss) = elim (Bool-cases (text_lt s t)) [
  | inl e ↦ rw e (Perm.trans (Perm.cons s (insert-perm t ss)) (Perm.swap t s ss))
  | inr e ↦ rw e (Perm.refl _)
]

pub sorted-perm : (ts : List Text) → Perm (sorted ts) ts
unfolding sorted
sorted-perm [] = Perm.refl _
sorted-perm (t ∷ ts) = Perm.trans (insert-perm t (sorted ts)) (Perm.cons t (sorted-perm ts))

-- Behind a text that comes first, an insertion goes on.
insert-behind :
    (t s : Text) (ss : List Text) → text_lt s t ≡ true → insert t (s ∷ ss) ≡ s ∷ insert t ss
unfolding insert
insert-behind t s ss e = rw e refl

insert-before : (t s : Text) (ss : List Text) → text_lt s t ≡ false → insert t (s ∷ ss) ≡ t ∷ s ∷ ss
unfolding insert
insert-before t s ss e = rw e refl

-- Two texts before a list, in order.
insert-both :
    (a b : Text) (ts : List Text)
    → insert a ts ≡ a ∷ ts
    → insert b ts ≡ b ∷ ts
    → insert a (b ∷ ts) ≡ insert b (a ∷ ts)
insert-both a b ts p q = elim (Bool-cases (text_lt a b)) [
  | inl e ↦
      insert-before a b ts (text_lt_asym a b e)
      ∙ ap (λ l. a ∷ l) (sym q)
      ∙ sym (insert-behind b a ts e)
  | inr e ↦ elim (Bool-cases (text_lt b a)) [
    | inl k ↦ insert-behind a b ts k ∙ ap (λ l. b ∷ l) p ∙ sym (insert-before b a ts e)
    | inr k ↦ rw (text_lt_total a b e k) refl
  ]
]

-- A text that goes behind the first one, and a text that goes before it.
insert-across :
    (a b s : Text) (ss : List Text)
    → text_lt s a ≡ true
    → text_lt s b ≡ false
    → insert a (insert b (s ∷ ss)) ≡ insert b (insert a (s ∷ ss))
insert-across a b s ss p q =
    ap (insert a) (insert-before b s ss q)
    ∙ insert-behind a b (s ∷ ss) (text_lt_trans b s a q p)
    ∙ ap (λ l. b ∷ l) (insert-behind a s ss p)
    ∙ sym (ap (insert b) (insert-behind a s ss p) ∙ insert-before b s (insert a ss) q)

insert_comm : (a b : Text) (ts : List Text) → insert a (insert b ts) ≡ insert b (insert a ts)
unfolding insert
insert_comm a b [] = insert-both a b [] refl refl
insert_comm a b (s ∷ ss) = elim (Bool-cases (text_lt s a)) [
  | inl p ↦ elim (Bool-cases (text_lt s b)) [
    | inl q ↦
        ap (insert a) (insert-behind b s ss q)
        ∙ insert-behind a s (insert b ss) p
        ∙ ap (λ l. s ∷ l) (insert_comm a b ss)
        ∙ sym (ap (insert b) (insert-behind a s ss p) ∙ insert-behind b s (insert a ss) q)
    | inr q ↦ insert-across a b s ss p q
  ]
  | inr p ↦ elim (Bool-cases (text_lt s b)) [
    | inl q ↦ sym (insert-across b a s ss q p)
    | inr q ↦
        ap (insert a) (insert-before b s ss q)
        ∙ insert-both a b (s ∷ ss) (insert-before a s ss p) (insert-before b s ss q)
        ∙ ap (insert b) (sym (insert-before a s ss p))
  ]
]

sorted-Permᴰ : {ts us : List Text} → Permᴰ ts us → sorted ts ≡ sorted us
unfolding sorted
sorted-Permᴰ Permᴰ.nil = refl
sorted-Permᴰ (Permᴰ.cons {a = a} e p) = rw e (ap (insert _) (sorted-Permᴰ p))
sorted-Permᴰ (Permᴰ.swap {a = a} {b = b} {l = l} e f) = rw (← e, ← f) (insert_comm a b (sorted l))
sorted-Permᴰ (Permᴰ.trans p q) = sorted-Permᴰ p ∙ sorted-Permᴰ q

-- Two lists of texts are sorted to the same list exactly where one is a permutation of the other.
pub sorted_iff : (ts us : List Text) → (sorted ts ≡ sorted us) ↔ Perm ts us
sorted_iff ts us = (
  λ h. Perm.trans (Perm.symm (sorted-perm ts)) (rw h (sorted-perm us)),
  λ p. ∥∥₁_elim p (hlevel) sorted-Permᴰ,
)
