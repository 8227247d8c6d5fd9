-- ===== src/Printf/Double.antt =====
-- The arithmetic of `double` that kernel/logging.cpp uses in `_ftoa` and `_etoa`. It is the processor's,
-- and so an argument: a type with an instance of `Double`.
use mega_os.Prelude.{ℕ, Bool, ℤ}

-- All that the code does with a `double`. `literal m k` is the constant m / 10^k; `truncated` is the
-- conversion to `int` or `unsigned long` of a value that is not negative, `to_int` the one to `int`
-- of any value; `bits` and `of_bits` are the two views of the union.
pub record Double {ℓ} (W : Type ℓ) : Type ℓ where
  pub literal : ℕ → ℕ → W
  pub dbl_max : W
  pub lt : W → W → Bool
  pub eq : W → W → Bool
  pub neg : W → W
  pub add : W → W → W
  pub sub : W → W → W
  pub mul : W → W → W
  pub div : W → W → W
  pub of_nat : ℕ → W
  pub of_int : ℤ → W
  pub truncated : W → ℕ
  pub to_int : W → ℤ
  pub bits : W → ℕ
  pub of_bits : ℕ → W
