-- ===== src/Base/Results.antt =====
-- Go's (value, error) pairs, generic in the component's type of errors.
use mathlib.Core.Path.{◌≡◌, refl}
use mathlib.Core.Logic.{◌⊎◌, inl, inr}

pub data Result {ℓ} (E : Type 0) (A : Type ℓ) : Type ℓ where
  err : E → Result E A
  ok : A → Result E A

module _ {ℓ κ} {E : Type 0} {A : Type ℓ} {B : Type κ} where
  infixl 5 ◌>>=◌
  -- `if err != nil { return nil, err }` between two calls
  abbrev pub ◌>>=◌ : Result E A → (A → Result E B) → Result E B
  ◌>>=◌ (err e) rest = err e
  ◌>>=◌ (ok a) rest = rest a

  -- Both calls returned a value.
  abbrev pub Passes : Result E A → (A → Result E B) → B → Type (ℓ ⊔ κ)
  Passes first rest last = (a : A) × (first ≡ ok a) × (rest a ≡ ok last)

  pub >>=-Passes :
      (first : Result E A) (rest : A → Result E B) {last : B}
      → (first >>= rest) ≡ ok last
      → Passes first rest last
  >>=-Passes (err e) rest h = cc
  >>=-Passes (ok a) rest h = (a, refl, h)

pub Result-cases {ℓ} :
    {E : Type 0} {A : Type ℓ} (r : Result E A) → ((a : A) × (r ≡ ok a)) ⊎ ((e : E) × (r ≡ err e))
Result-cases (ok a) = inl (a, refl)
Result-cases (err e) = inr (e, refl)
