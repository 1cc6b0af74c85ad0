-- ===== src/Float64/Samples.antt =====
-- Floats for the tests: whole numbers, with the division of those.
use alpharouting.Prelude.{ℕ, ◌+◌, ◌-◌, ◌*◌, ◌/◌, ◌^◌}
use alpharouting.Float64.{Float64}

abbrev pub whole : Float64 ℕ
whole = record {
  zero = 0;
  one = 1;
  decimal = λ n k. n / 10 ^ k;
  of_int = λ n. n;
  add = λ a b. a + b;
  sub = λ a b. a - b;
  mul = λ a b. a * b;
  div = λ a b. a / b;
}
