-- ===== src/Float.antt =====
-- float64 and the functions of package math that the code calls, over any type of numbers: the
-- checker has no floats. `NaN` is the value that is not `==` itself.
pub mod Whole
use exchange_data_importer.Prelude.{◌≡◌, ◌⊎◌, Bool, true, not}
use exchange_data_importer.Prelude.Int.{ℤ}

pub record Float {ℓ} (F : Type ℓ) : Type ℓ where
  -- The value of an integer constant.
  pub lit : ℤ → F
  pub add : F → F → F
  pub sub : F → F → F
  pub mul : F → F → F
  pub div : F → F → F
  pub lt : F → F → Bool
  pub le : F → F → Bool
  pub eq : F → F → Bool
  -- math.Round, math.Pow10, math.Abs, math.Max, math.Min and math.MaxFloat64.
  pub round : F → F
  pub pow10 : ℤ → F
  pub abs : F → F
  pub max_of : F → F → F
  pub min_of : F → F → F
  pub max_float64 : F
  -- The conversion `int16(x)`.
  pub to_int16 : F → ℤ

-- IEEE 754 comparison: what is comparable to itself is a number, and numbers are totally ordered.
pub record IsOrdered {ℓ} (F : Type ℓ) ⦃f : Float F⦄ : Type ℓ where
  pub le_trans : (x y z : F) → f.le x y ≡ true → f.le y z ≡ true → f.le x z ≡ true
  pub num_of_le : (x y : F) → f.le x y ≡ true → (f.le x x ≡ true) × (f.le y y ≡ true)
  pub lt-eq-not-le : (x y : F) → f.le x x ≡ true → f.le y y ≡ true → f.lt x y ≡ not (f.le y x)
  pub le_total :
      (x y : F) → f.le x x ≡ true → f.le y y ≡ true → (f.le x y ≡ true) ⊎ (f.le y x ≡ true)
  pub lt_num : (x y : F) → f.lt x y ≡ true → (f.le x x ≡ true) × (f.le y y ≡ true)
  pub max_of_le :
      (x y : F)
      → f.le x x ≡ true
      → f.le y y ≡ true
      → (f.le x (f.max_of x y) ≡ true) × (f.le y (f.max_of x y) ≡ true)
  pub min_of_le :
      (x y : F)
      → f.le x x ≡ true
      → f.le y y ≡ true
      → (f.le (f.min_of x y) x ≡ true) × (f.le (f.min_of x y) y ≡ true)
