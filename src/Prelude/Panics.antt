-- ===== src/Prelude/Panics.antt =====
-- What a Go call comes to.
use mathlib.Core.Path.{◌≡◌, refl}
use mathlib.Core.Logic.{◌⊎◌, inl, inr}

-- A call that returns, or that panics: a failed type assertion, or an index out of range.
pub data Outcome {ℓ} (A : Type ℓ) : Type ℓ where
  returned : A → Outcome A
  panic : Outcome A

pub Outcome-cases {ℓ} : {A : Type ℓ} (o : Outcome A) → ((a : A) × (o ≡ returned a)) ⊎ (o ≡ panic)
Outcome-cases (returned a) = inl (a, refl)
Outcome-cases panic = inr refl
