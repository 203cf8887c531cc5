-- ===== src/Double.antt =====
-- All that the code does with a `double`, as a parameter: its conversions, arithmetic, comparisons,
-- `log`, `pow`, and the literal 0.01.
use cachemere.Common.{ℕ, ◌≡◌, Bool, true, false, ◌<◌}

pub record Double (W : Type 0) : Type 0 where
  pub of_u64 : ℕ → W
  pub to_u64 : W → ℕ
  pub add : W → W → W
  pub mul : W → W → W
  pub div : W → W → W
  pub less : W → W → Bool
  pub at_most : W → W → Bool
  -- Whether it is a NaN.
  pub is_nan : W → Bool
  -- Whether `to_u64` is defined: without its fraction the value fits 64 bits.
  pub in_u64 : W → Bool
  pub to_u32 : W → ℕ
  pub neg : W → W
  pub log : W → W
  pub pow : W → W → W
  pub hundredth : W

-- `<` orders the values that are numbers; it never holds of a NaN.
pub record IsOrdered {W : Type 0} (d : Double W) (IsNumber : W → Type 0) : Type 0 where
  pub less_asymm : (x y : W) → d.less x y ≡ true → d.less y x ≡ false
  pub less_between :
      (x y z : W) → IsNumber y → d.less y x ≡ false → d.less z y ≡ false → d.less z x ≡ false

-- A conversion to an unsigned type rounds to zero, where the result fits its bits.
pub record IsTruncated {W : Type 0} (d : Double W) (Fits : ℕ → W → Type 0) : Type 0 where
  pub to_u64_positive : (x : W) → Fits 64 x → d.less (d.of_u64 1) x ≡ true → 0 < d.to_u64 x
  pub to_u32_positive : (x : W) → Fits 32 x → d.at_most (d.of_u64 1) x ≡ true → 0 < d.to_u32 x
