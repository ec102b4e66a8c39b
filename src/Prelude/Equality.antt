-- ===== src/Prelude/Equality.antt =====
-- What Rust's `Eq` promises of a type of keys.
use mathlib.Core.Path.{◌≡◌}
use mathlib.Core.Bool.{Bool, true}

pub record Equality {ℓ} (A : Type ℓ) : Type ℓ where
  pub eq : A → A → Bool
  pub eq_sound : (a b : A) → eq a b ≡ true → a ≡ b
  pub eq_refl : (a : A) → eq a a ≡ true

module _ {ℓ} {A : Type ℓ} ⦃e : Equality A⦄ where
  abbrev pub equals : A → A → Bool
  equals a b = e.eq a b
