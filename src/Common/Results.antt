-- ===== src/Common/Results.antt =====
-- A call that returns a value, or ends the process: `log::fatal`, `exit` or a failed `assert`.
use mathlib.Core.Logic.{◌⊎◌, inl, inr}
use mathlib.Core.Path.{◌≡◌, refl, ap}

pub data Outcome {ℓ} (A : Type ℓ) : Type ℓ where
  returned : A → Outcome A
  terminated : Outcome A

infixl 5 ◌>>=◌
abbrev pub ◌>>=◌ {ℓ κ} : {A : Type ℓ} {B : Type κ} → Outcome A → (A → Outcome B) → Outcome B
returned a >>= f = f a
terminated >>= f = terminated

-- Inversion of a bind that returns.
pub >>=-returned {ℓ κ} :
    {A : Type ℓ} {B : Type κ} (m : Outcome A) (f : A → Outcome B) {b : B}
    → (m >>= f) ≡ returned b
    → (a : A) × (m ≡ returned a) × (f a ≡ returned b)
>>=-returned (returned a) f h = (a, refl, h)
>>=-returned terminated f h = cc

pub Outcome-cases {ℓ} :
    {A : Type ℓ} (m : Outcome A) → (m ≡ terminated) ⊎ ((a : A) × (m ≡ returned a))
Outcome-cases (returned a) = inr (a, refl)
Outcome-cases terminated = inl refl

value_or {ℓ} : {A : Type ℓ} → A → Outcome A → A
value_or a (returned b) = b
value_or a terminated = a

pub returned_injective {ℓ} : {A : Type ℓ} (a b : A) → returned a ≡ returned b → a ≡ b
unfolding value_or
returned_injective a b h = ap (value_or a) h
