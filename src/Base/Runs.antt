-- ===== src/Base/Runs.antt =====
-- How a run ends: with a result, with undefined behaviour, or when the model's fuel is used up.
pub data Outcome {ℓ} (A : Type ℓ) : Type ℓ where
  ok : A → Outcome A
  -- undefined behaviour
  fault : Outcome A
  out_of_fuel : Outcome A

module _ {ℓ κ} {A : Type ℓ} {B : Type κ} where
  infixl 5 ◌>>=◌
  abbrev pub ◌>>=◌ : Outcome A → (A → Outcome B) → Outcome B
  ok a >>= f = f a
  fault >>= f = fault
  out_of_fuel >>= f = out_of_fuel
