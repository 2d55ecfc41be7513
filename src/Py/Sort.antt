-- ===== src/Py/Sort.antt =====
-- `sorted(texts)`, by insertion.
pub mod Perm
use e2ee_app.Base.{Bool, List, [], ◌∷◌, if◌then◌else◌}
use e2ee_app.Py.Text.{Text, text_lt}

unfoldable pub insert : Text → List Text → List Text
unfolding text_lt
insert t [] = t ∷ []
insert t (s ∷ ss) = let rest = insert t ss in if text_lt s t then s ∷ rest else t ∷ s ∷ ss

unfoldable pub sorted : List Text → List Text
unfolding insert
sorted [] = []
sorted (t ∷ ts) = insert t (sorted ts)
