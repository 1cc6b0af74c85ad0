-- ===== src/Config.antt =====
-- crates/config/src/chain_spec.rs: what a chain's entry holds and which strategies it allows.
-- Addresses are numbers, as in Liquidator.
pub mod Chains
pub mod Registry
pub mod Lookup
mod Tests
use alpharouting.Prelude.{ℕ, Bool, true, false, not, ◌&&◌, Option, none, some, ◌==◌}
use alpharouting.Text.{Text}

pub data ChainStatus : Type 0 where
  live preview disabled : ChainStatus

pub record ChainSpec : Type 0 where
  pub chain_id : ℕ
  pub name : Text
  pub status : ChainStatus
  pub aave_pool : ℕ
  pub aave_addresses_provider : ℕ
  pub aave_ui_pool_data_provider : ℕ
  pub aave_pool_data_provider : ℕ
  pub multicall3 : ℕ
  pub usdc : ℕ
  pub weth : ℕ
  pub chainlink_eth_usd : Option ℕ
  pub balancer_vault : Option ℕ
  pub ws_hint_substring : Text

-- `Address::ZERO`.
abbrev pub address_zero : ℕ
address_zero = 0

abbrev pub is_some : {A : Type 0} → Option A → Bool
is_some none = false
is_some (some a) = true

abbrev pub lending_protocol_available : ChainSpec → Bool
lending_protocol_available c = not (c.aave_pool == address_zero)

abbrev pub oracle_boundary_trigger_available : ChainSpec → Bool
oracle_boundary_trigger_available c = is_some c.chainlink_eth_usd && lending_protocol_available c

abbrev pub balancer_available : ChainSpec → Bool
balancer_available c = is_some c.balancer_vault
