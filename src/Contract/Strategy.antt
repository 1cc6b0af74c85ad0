-- ===== src/Contract/Strategy.antt =====
-- src/AlphaRouting.sol: the liquidation, and the flash loan's callback that runs it. The transient
-- slots are fields of the state.
use alpharouting.Prelude.{ℕ, ◌%◌, ◌^◌, Bool, true, false, not, ltb, leb, ◌==◌, if◌then◌else◌}
use alpharouting.Text.{Text}
use alpharouting.Contract.{
  Immutables, Action, ◌>>=◌, ◌>>◌, pure, revert, require, decoded, look, gets, modify, emit, add,
  sub, health_factor_liquidation_threshold, strat_liq, position_still_healthy, no_collateral_seized,
  unprofitable_arb, min_profit_not_met, unauthorized_callback, initiator_mismatch, lock_not_set,
  unsupported_strategy, liquidation_executed,
}
use alpharouting.Contract.Evm.{Evm}
use alpharouting.Contract.Swap.{swap}

module _ {G W : Type 0} where
  abbrev pub set_lock : Bool → Action G W (Unit {0})
  set_lock locked = modify λ s. record s { lock = if locked then 1 else 0 }

  abbrev is_locked : Action G W Bool
  is_locked = gets λ s. s.lock == 1

  abbrev pub set_strategy : ℕ → Action G W (Unit {0})
  set_strategy strat = modify λ s. record s { strategy = strat }

  -- `uint8(v)`.
  abbrev get_strategy : Action G W ℕ
  get_strategy = gets λ s. s.strategy % 2 ^ 8

  abbrev pub set_snapshot : ℕ → Action G W (Unit {0})
  set_snapshot bal = modify λ s. record s { snapshot = bal }

  abbrev get_snapshot : Action G W ℕ
  get_snapshot = gets λ s. s.snapshot

module _ {G W : Type 0} (evm : Evm G W) (c : Immutables) where
  -- From the test of the profit to the event.
  unfoldable pub settle : ℕ → ℕ → ℕ → ℕ → ℕ → ℕ → ℕ → ℕ → Action G W (Unit {0})
  settle debt_asset amount premium collateral_asset borrower debt_to_cover min_profit seized = do
    owed ← add amount premium
    snapshot ← get_snapshot
    final_balance ← look (evm.balance_of debt_asset evm.this)
    floor ← add snapshot owed
    require (leb floor final_balance) (unprofitable_arb final_balance floor)
    gained ← sub final_balance snapshot
    profit ← sub gained owed
    require (leb min_profit profit) (min_profit_not_met profit min_profit)
    emit (
        liquidation_executed debt_asset collateral_asset borrower debt_to_cover seized premium
          profit)

  -- From the test of the health factor to what was seized.
  unfoldable pub seize : ℕ → ℕ → ℕ → ℕ → Action G W ℕ
  seize debt_asset collateral_asset borrower debt_to_cover = do
    health_factor ← look (evm.get_health_factor c.pool borrower)
    require (ltb health_factor health_factor_liquidation_threshold)
        (position_still_healthy health_factor)
    collateral_before ← look (evm.balance_of collateral_asset evm.this)
    evm.force_approve debt_asset c.pool debt_to_cover
    evm.liquidation_call c.pool collateral_asset debt_asset borrower debt_to_cover false
    collateral_after ← look (evm.balance_of collateral_asset evm.this)
    seized ← sub collateral_after collateral_before
    require (not (seized == 0)) no_collateral_seized
    pure seized

  -- `if (collateralAsset != debtAsset) _swap(..)`, its result unused.
  unfoldable pub sell : Text → ℕ → ℕ → ℕ → ℕ → Action G W (Unit {0})
  unfolding swap
  sell dex collateral_asset debt_asset fee seized =
      if collateral_asset == debt_asset
      then pure tt
      else swap evm c dex collateral_asset debt_asset fee seized >>= λ _. pure tt

  unfoldable pub run_liquidation : ℕ → ℕ → ℕ → Text → Action G W (Unit {0})
  unfolding settle seize sell
  run_liquidation debt_asset amount premium params = do
    p ← decoded (evm.codec.decode_liq params)
    seized ← seize debt_asset p.collateral_asset p.borrower p.debt_to_cover
    sell p.sell_dex p.collateral_asset debt_asset p.sell_fee seized
    settle debt_asset amount premium p.collateral_asset p.borrower p.debt_to_cover p.min_profit
        seized

  unfoldable pub execute_operation : ℕ → ℕ → ℕ → ℕ → ℕ → Text → Action G W Bool
  unfolding run_liquidation
  execute_operation sender asset amount premium initiator params = do
    require (sender == c.pool) unauthorized_callback
    require (initiator == evm.this) initiator_mismatch
    locked ← is_locked
    require locked lock_not_set
    strat ← get_strategy
    (if strat == strat_liq
        then run_liquidation asset amount premium params
        else revert (unsupported_strategy strat))
    owed ← add amount premium
    evm.force_approve asset c.pool owed
    pure true
