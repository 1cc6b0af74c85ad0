-- ===== src/Liquidator/Aave.antt =====
-- crates/liquidator/src/aave.rs: the decoder of Aave's user configuration. A shift by 128 bits or
-- more is where the two build profiles of Rust differ: with overflow checks it panics, without them
-- the amount is taken modulo 128.
pub mod Bits
pub mod Decode
mod Tests
use alpharouting.Prelude.{
  ℕ, zero, suc, ◌+◌, ◌*◌, ◌/◌, ◌%◌, ◌^◌, Bool, Option, none, some, List, [], ◌∷◌, ltb, ◌==◌,
  if◌then◌else◌,
}
use alpharouting.Liquidator.{◌>>=◌}

abbrev pub health_factor_liquidation_threshold : ℕ
health_factor_liquidation_threshold = 1_000_000_000_000_000_000

pub record ReserveFlags : Type 0 where
  pub borrowing : Bool
  pub collateral : Bool

pub data Build : Type 0 where
  debug release : Build

-- `n >> k` on `u128`; `none` is a panic.
pub shr : Build → ℕ → ℕ → Option ℕ
shr debug n k = if ltb k 128 then some (n / 2 ^ k) else none
shr release n k = some (n / 2 ^ (k % 128))

-- The closure of the `map`: `& 1 == 1` is `% 2 == 1`.
pub flags_at : Build → ℕ → ℕ → Option ReserveFlags
unfolding shr
flags_at build bitmap i = do
  b ← shr build bitmap (2 * i)
  c ← shr build bitmap (2 * i + 1)
  some (record { borrowing = b % 2 == 1; collateral = c % 2 == 1 })

-- The reserves from `i` on, `n` of them.
pub decode_from : Build → ℕ → ℕ → ℕ → Option (List ReserveFlags)
unfolding flags_at
decode_from build bitmap i zero = some []
decode_from build bitmap i (suc n) = do
  flags ← flags_at build bitmap i
  rest ← decode_from build bitmap (suc i) n
  some (flags ∷ rest)

unfoldable pub decode_user_configuration : Build → ℕ → ℕ → Option (List ReserveFlags)
unfolding decode_from
decode_user_configuration build bitmap num_reserves = decode_from build bitmap 0 num_reserves
