-- ===== src/Py/Dict.antt =====
-- A `dict[str, str]` in insertion order.
use e2ee_app.Base.{◌≡◌, Option, none, some, List, [], ◌∷◌, if◌then◌else◌, arith}
use e2ee_app.Py.Text.{Text, text_eq, text_eq_iff}

abbrev pub Dict : Type 0
Dict = List (Text × Text)

-- `d.get(k)`
unfoldable pub lookup : Text → Dict → Option Text
lookup k [] = none
lookup k ((j, v) ∷ d) = if text_eq j k then some v else lookup k d

-- `d[k] = v`
unfoldable pub insert : Text → Text → Dict → Dict
insert k v [] = (k, v) ∷ []
insert k v ((j, w) ∷ d) = if text_eq j k then (j, v) ∷ d else (j, w) ∷ insert k v d

-- `{**d, **e}`
unfoldable pub merge : Dict → Dict → Dict
unfolding insert
merge d [] = d
merge d ((k, v) ∷ e) = merge (insert k v d) e

-- `{j: v for j, v in d.items() if j != k}`
unfoldable pub remove : Text → Dict → Dict
remove k [] = []
remove k ((j, v) ∷ d) = let rest = remove k d in if text_eq j k then rest else (j, v) ∷ rest

pub lookup-insert :
    (k j v : Text) (d : Dict)
    → lookup j (insert k v d) ≡ (if text_eq k j then some v else lookup j d)
unfolding lookup insert
lookup-insert k j v [] = ground arith
lookup-insert k j v ((i, w) ∷ d) =
    ground (arith, lookup-insert k j v d, text_eq_iff i k, text_eq_iff i j, text_eq_iff k j)

pub lookup-remove :
    (k j : Text) (d : Dict) → lookup j (remove k d) ≡ (if text_eq k j then none else lookup j d)
unfolding lookup remove
lookup-remove k j [] = ground arith
lookup-remove k j ((i, w) ∷ d) =
    ground (arith, lookup-remove k j d, text_eq_iff i k, text_eq_iff i j, text_eq_iff k j)
