-- ===== src/Float64.antt =====
-- `f64` as the program uses it. The processor's arithmetic is a parameter: a carrier with the
-- operations that the code calls, and no law.
pub mod Samples
use alpharouting.Prelude.{ℕ}

pub record Float64 (F : Type 0) : Type 0 where
  -- The literals 0.0 and 1.0, and decimal literals `n / 10 ^ k`.
  pub zero : F
  pub one : F
  pub decimal : ℕ → ℕ → F
  -- `as f64` from an unsigned integer.
  pub of_int : ℕ → F
  pub add : F → F → F
  pub sub : F → F → F
  pub mul : F → F → F
  pub div : F → F → F
