-- ===== src/Common/Action.antt =====
-- Code that may panic, and code that acts on a state of the program.
use mathlib.Core.Path.{◌≡◌, refl}
use mathlib.Core.Logic.{◌⊎◌, inl, inr}

pub data Outcome {ℓ} (A : Type ℓ) : Type ℓ where
  returned : A → Outcome A
  panicked : Outcome A

-- Code that runs callbacks: it takes the state of the program, and returns or panics in a new state.
abbrev pub Action : Type 0 → Type 0 → Type 0
Action W A = W → Outcome A × W

abbrev pub resume : {W A B : Type 0} → (A → Action W B) → Outcome A → W → Outcome B × W
resume f (returned a) w = f a w
resume f panicked w = (panicked, w)

-- One after the other; a panic ends it.
abbrev pub and_then : {W A B : Type 0} → Action W A → (A → Action W B) → Action W B
and_then m f w = resume f (m w).0 (m w).1

abbrev pub pure : {W A : Type 0} → A → Action W A
pure a w = (returned a, w)

abbrev pub panic : {W A : Type 0} → Action W A
panic w = (panicked, w)

pub Outcome-cases : {A : Type 0} (o : Outcome A) → (o ≡ panicked) ⊎ ((a : A) × (o ≡ returned a))
Outcome-cases (returned a) = inr (a, refl)
Outcome-cases panicked = inl refl
