-- ===== src/Liquidator/Uint256.antt =====
-- alloy's `U256`: a value is the number that it stands for, below 2^256. Of the arithmetic, which is
-- not in the repository, the code relies on it being exact where nothing overflows.
use alpharouting.Prelude.{ℕ, ◌+◌, ◌*◌, ◌/◌, ◌%◌, ◌^◌, ◌<◌, ◌≡◌, ◌≢◌, refl}
use native.Mathlib.Nat.{mod-eq_of_lt}

pub record Uint256 : Type 0 where
  pub add : ℕ → ℕ → ℕ
  pub mul : ℕ → ℕ → ℕ
  pub div : ℕ → ℕ → ℕ
  pub add_exact : (a b : ℕ) → a + b < 2 ^ 256 → add a b ≡ a + b
  pub mul_exact : (a b : ℕ) → a * b < 2 ^ 256 → mul a b ≡ a * b
  pub div_exact : (a b : ℕ) → b ≢ 0 → div a b ≡ a / b

-- Arithmetic that wraps round meets this.
pub wrap_exact : (n : ℕ) → n < 2 ^ 256 → n % 2 ^ 256 ≡ n
wrap_exact n h = mod-eq_of_lt h

abbrev pub wrapping : Uint256
wrapping = record {
  add = λ a b. (a + b) % 2 ^ 256;
  mul = λ a b. (a * b) % 2 ^ 256;
  div = λ a b. a / b;
  add_exact = λ a b h. wrap_exact (a + b) h;
  mul_exact = λ a b h. wrap_exact (a * b) h;
  div_exact = λ a b h. refl;
}
