-- ===== src/Contract.antt =====
-- src/AlphaRouting.sol: the contract's state, parameters, errors and events, and the monad of a
-- call. OpenZeppelin's modifiers, the other contracts, abi.encode and keccak256 are the parameter
-- Contract.Evm. An address and a uint256 are numbers; a call that reverts leaves no state.
pub mod Evm
pub mod Ensures
pub mod Swap
pub mod Strategy
pub mod Message
pub mod Entry
pub mod Reentry
pub mod Access
pub mod Dexes
pub mod Withdraw
pub mod Guards
pub mod Steps
pub mod Profit
pub mod Lending
pub mod Loan
pub mod Answers
pub mod Bot
pub mod Deploy
mod Mock
mod Samples
mod Tests
use alpharouting.Prelude.{
  ℕ, ◌+◌, ◌-◌, ◌^◌, Bool, Option, none, some, List, [], ◌∷◌, ◌++◌, ltb, leb, if◌then◌else◌,
}
use alpharouting.Text.{Text}

pub record Routers : Type 0 where
  pub aave_provider : ℕ
  pub uniswap_v3_router : ℕ
  pub sushiswap_v3_router : ℕ
  pub baseswap_v3_router : ℕ
  pub pancakeswap_v3_router : ℕ
  pub aerodrome_router : ℕ
  pub balancer_vault : ℕ

-- The immutable variables.
pub record Immutables : Type 0 where
  pub aave_provider : ℕ
  pub uniswap_v3_router : ℕ
  pub sushiswap_v3_router : ℕ
  pub baseswap_v3_router : ℕ
  pub pancakeswap_v3_router : ℕ
  pub aerodrome_router : ℕ
  pub pool : ℕ
  pub balancer_vault : ℕ

pub record LiqParams : Type 0 where
  pub collateral_asset : ℕ
  pub debt_asset : ℕ
  pub borrower : ℕ
  pub debt_to_cover : ℕ
  pub sell_dex : Text
  pub sell_fee : ℕ
  pub min_profit : ℕ

abbrev pub health_factor_liquidation_threshold : ℕ
health_factor_liquidation_threshold = 10 ^ 18

abbrev pub strat_liq : ℕ
strat_liq = 2

-- The errors that the code raises: its own, Solidity's panic and a failed abi.decode, those of the
-- modifiers, and one that another contract raised.
pub data Error : Type 0 where
  unauthorized_callback initiator_mismatch lock_not_set no_collateral_seized zero_borrower : Error
  aave_not_available not_yet_implemented eth_transfer_failed : Error
  unprofitable_arb min_profit_not_met : ℕ → ℕ → Error
  unsupported_dex dex_not_configured : Text → Error
  unsupported_strategy position_still_healthy : ℕ → Error
  panic bad_encoding invalid_owner unauthorized_account reentrant_call call_failed : Error

pub data Event : Type 0 where
  liquidation_executed :
      (debt_asset collateral_asset borrower debt_covered collateral_seized fee profit : ℕ) → Event
  withdrawn : (token amount to : ℕ) → Event

-- What the modifiers keep, the transient slots, the events emitted so far, and everything outside
-- of the contract.
pub record State (G W : Type 0) : Type 0 where
  pub inherited : G
  pub lock : ℕ
  pub strategy : ℕ
  pub snapshot : ℕ
  pub logs : List Event
  pub world : W

pub data Outcome (A : Type 0) : Type 0 where
  done : A → Outcome A
  reverted : Error → Outcome A

abbrev pub Action : Type 0 → Type 0 → Type 0 → Type 0
Action G W A = State G W → Outcome (A × State G W)

module _ {G W : Type 0} where
  infixl 5 ◌>>=◌ ◌>>◌
  unfoldable pub ◌>>=◌ : {A B : Type 0} → Action G W A → (A → Action G W B) → Action G W B
  ◌>>=◌ m f s = elim (m s) [ done (a, s') ↦ f a s' | reverted e ↦ reverted e ]

  abbrev pub ◌>>◌ : {B : Type 0} → Action G W (Unit {0}) → Action G W B → Action G W B
  m >> k = m >>= λ _. k

  unfoldable pub pure : {A : Type 0} → A → Action G W A
  pure a s = done (a, s)

  unfoldable pub revert : {A : Type 0} → Error → Action G W A
  revert e s = reverted e

  unfoldable pub require : Bool → Error → Action G W (Unit {0})
  require b e s = if b then done (tt, s) else reverted e

  unfoldable pub decoded : {A : Type 0} → Option A → Action G W A
  decoded none s = reverted bad_encoding
  decoded (some a) s = done (a, s)

  -- A call that can change nothing.
  unfoldable pub look : {A : Type 0} → (W → Outcome A) → Action G W A
  look f s = elim (f s.world) [ done a ↦ done (a, s) | reverted e ↦ reverted e ]

  unfoldable pub gets : {A : Type 0} → (State G W → A) → Action G W A
  gets f s = done (f s, s)

  unfoldable pub modify : (State G W → State G W) → Action G W (Unit {0})
  modify f s = done (tt, f s)

  abbrev pub emit : Event → Action G W (Unit {0})
  emit event = modify λ s. record s { logs = s.logs ++ event ∷ [] }

  -- Checked arithmetic on uint256.
  unfoldable pub add : ℕ → ℕ → Action G W ℕ
  add a b s = if ltb (a + b) (2 ^ 256) then done (a + b, s) else reverted panic

  unfoldable pub sub : ℕ → ℕ → Action G W ℕ
  sub a b s = if leb b a then done (a - b, s) else reverted panic
