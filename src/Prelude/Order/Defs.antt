-- ===== src/Prelude/Order/Defs.antt =====
-- The interface of a total order with a Boolean test.
use mathlib.Core.Path.{◌≡◌}
use mathlib.Core.Bool.{Bool, true, false}

pub record TotalOrder {ℓ} (A : Type ℓ) : Type ℓ where
  pub le : A → A → Bool
  pub total : (a b : A) → le a b ≡ false → le b a ≡ true
  pub transitive : (a b c : A) → le a b ≡ true → le b c ≡ true → le a c ≡ true
  pub antisymmetric : (a b : A) → le a b ≡ true → le b a ≡ true → a ≡ b
