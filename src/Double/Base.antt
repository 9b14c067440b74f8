-- ===== src/Double/Base.antt =====
-- The operations on `double`, and the laws of its order.
use application_monitoring.Prelude.{ℕ, ℤ, ◌≡◌, ◌⊎◌, Bool, true, false, not}

pub record Double (D : Type 0) : Type 0 where
  -- a decimal constant of the source: `ratio 1 10` is 0.1
  pub ratio : ℕ → ℕ → D
  -- the conversion of an unsigned integer
  pub of_ℕ : ℕ → D
  pub lt : D → D → Bool
  pub le : D → D → Bool
  pub add : D → D → D
  pub sub : D → D → D
  pub mul : D → D → D
  pub div : D → D → D
  -- the cast to an unsigned integer
  pub to_ℕ : D → ℕ
  -- `difftime` of <time.h>
  pub difftime : ℤ → ℤ → D
  -- NaN
  pub is_nan : D → Bool

-- What IEEE 754 promises of `<` and `<=`: a strict order, total up to equality on all that is no
-- NaN, while a comparison with a NaN is false.
pub record IsOrdered {D : Type 0} (F : Double D) : Type 0 where
  pub lt_irrefl : (a : D) → F.lt a a ≡ false
  pub lt_trans : (a b c : D) → F.lt a b ≡ true → F.lt b c ≡ true → F.lt a c ≡ true
  pub lt_split :
      (a b c : D) → F.is_nan b ≡ false → F.lt a c ≡ true → (F.lt a b ≡ true) ⊎ (F.lt b c ≡ true)
  pub le_iff_not_lt :
      (a b : D) → F.is_nan a ≡ false → F.is_nan b ≡ false → F.le a b ≡ not (F.lt b a)
  pub le_trans : (a b c : D) → F.le a b ≡ true → F.le b c ≡ true → F.le a c ≡ true
  pub le_number : (a b : D) → F.le a b ≡ true → (F.is_nan a ≡ false) × (F.is_nan b ≡ false)
  pub lt_nan : (a b : D) → F.is_nan a ≡ true → F.lt a b ≡ false
  pub nan_lt : (a b : D) → F.is_nan b ≡ true → F.lt a b ≡ false
  pub of_ℕ_number : (n : ℕ) → F.is_nan (F.of_ℕ n) ≡ false
  pub ratio_number : (n k : ℕ) → F.is_nan (F.ratio n k) ≡ false
