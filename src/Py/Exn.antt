-- ===== src/Py/Exn.antt =====
-- Python exceptions as values: a call returns, or raises one of the exceptions the tools meet.
use e2ee_app.Base.{ℕ, List, ◌≡◌, refl}

pub data Exn : Type 0 where
  value_error : List ℕ → Exn
  yaml_error : List ℕ → Exn
  type_error attribute_error key_error os_error : Exn

-- What a call that should give a `T` ends with.
pub data Result {ℓ} (T : Type ℓ) : Type ℓ where
  ok : T → Result T
  raise : Exn → Result T

module _ {ℓ κ} {S : Type ℓ} {T : Type κ} where
  infixl 5 ◌>>=◌
  abbrev pub ◌>>=◌ : Result S → (S → Result T) → Result T
  raise e >>= next = raise e
  ok x >>= next = next x

  -- A chain that returns has returned from each of its calls.
  pub >>=-eq-ok :
      (call : Result S) (next : S → Result T) {y : T}
      → call >>= next ≡ ok y
      → (x : S) × (call ≡ ok x) × (next x ≡ ok y)
  >>=-eq-ok (raise e) next returned = cc
  >>=-eq-ok (ok x) next returned = (x, refl, returned)
