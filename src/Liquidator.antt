-- ===== src/Liquidator.antt =====
-- crates/liquidator: the liquidation bot. Addresses are their 20 bytes read as one number, so that
-- the order of `BTreeSet<Address>` is that of the numbers, and `Address::ZERO` is 0.
pub mod Uint256
pub mod Select
pub mod Aave
pub mod Discovery
pub mod Settings
pub mod Bot
pub mod Samples
pub mod Main
use alpharouting.Prelude.{Option, none, some}

-- `?` on an `Option`.
infixl 5 ◌>>=◌
abbrev pub ◌>>=◌ {ℓ κ} : {A : Type ℓ} {B : Type κ} → Option A → (A → Option B) → Option B
some a >>= f = f a
none >>= f = none
