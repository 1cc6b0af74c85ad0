-- ===== src/Contract/Entry.antt =====
-- src/AlphaRouting.sol: the constructor and the external functions.
use alpharouting.Prelude.{ℕ, true, false, not, none, some, ◌==◌, if◌then◌else◌}
use alpharouting.Text.{Text}
use alpharouting.Contract.{
  Routers, Immutables, Action, Outcome, done, reverted, ◌>>=◌, ◌>>◌, pure, revert, require, decoded,
  look, gets, emit, strat_liq, aave_not_available, zero_borrower, not_yet_implemented,
  eth_transfer_failed, unauthorized_account, invalid_owner, reentrant_call, withdrawn,
}
use alpharouting.Contract.Evm.{Evm}
use alpharouting.Contract.Message.{Message}
use alpharouting.Contract.Strategy.{set_lock, set_strategy, set_snapshot, execute_operation}

module _ {G W : Type 0} (evm : Evm G W) where
  -- The contract with what `Ownable` and `ReentrancyGuard` begin with.
  unfoldable pub construct : ℕ → Routers → W → Outcome (Immutables × G)
  construct owner_ r w = elim (evm.modifiers.init owner_) [
    | none ↦ reverted invalid_owner
    | some g ↦
        elim (if not (r.aave_provider == 0) then evm.get_pool r.aave_provider w else done 0) [
          | reverted e ↦ reverted e
          | done pool ↦ done (
            record {
              aave_provider = r.aave_provider;
              uniswap_v3_router = r.uniswap_v3_router;
              sushiswap_v3_router = r.sushiswap_v3_router;
              baseswap_v3_router = r.baseswap_v3_router;
              pancakeswap_v3_router = r.pancakeswap_v3_router;
              aerodrome_router = r.aerodrome_router;
              pool = pool;
              balancer_vault = r.balancer_vault;
            },
            g,
          )
        ]
  ]

  abbrev pub owner : Action G W ℕ
  owner = gets λ s. evm.modifiers.owner s.inherited

  -- `onlyOwner` and `nonReentrant`, round a body.
  unfoldable pub only_owner : ℕ → Action G W (Unit {0}) → Action G W (Unit {0})
  only_owner sender body s =
      if evm.modifiers.is_owner sender s.inherited then body s else reverted unauthorized_account

  unfoldable pub non_reentrant : Action G W (Unit {0}) → Action G W (Unit {0})
  non_reentrant body s = elim (evm.modifiers.before s.inherited) [
    | none ↦ reverted reentrant_call
    | some g ↦ elim (body (record s { inherited = g })) [
      | reverted e ↦ reverted e
      | done (_, s') ↦ done (tt, record s' { inherited = evm.modifiers.after s'.inherited })
    ]
  ]

  unfoldable pub withdraw_token : ℕ → ℕ → Action G W (Unit {0})
  withdraw_token sender token = only_owner sender (
      non_reentrant (do
        bal ← look (evm.balance_of token evm.this)
        to ← owner
        evm.safe_transfer token to bal
        to' ← owner
        emit (withdrawn token bal to')))

  unfoldable pub withdraw_eth : ℕ → Action G W (Unit {0})
  withdraw_eth sender = only_owner sender (
      non_reentrant (do
        bal ← look (λ w. done (evm.eth_balance evm.this w))
        to ← owner
        paid ← evm.send_eth to bal
        require paid eth_transfer_failed
        to' ← owner
        emit (withdrawn 0 bal to')))

  unfoldable pub emergency_withdraw : ℕ → ℕ → ℕ → Action G W (Unit {0})
  emergency_withdraw sender token amount = only_owner sender (
      non_reentrant (do
        to ← owner
        evm.safe_transfer token to amount
        to' ← owner
        emit (withdrawn token amount to')))

  module _ (c : Immutables) where
    -- What `executeLiquidation` does between the modifiers.
    unfoldable pub borrow : ℕ → ℕ → ℕ → ℕ → Text → Action G W (Unit {0})
    borrow collateral_asset debt_asset borrower debt_amount swap_params = do
      require (not (c.pool == 0)) aave_not_available
      require (not (borrower == 0)) zero_borrower
      swap ← decoded (evm.codec.decode_swap swap_params)
      let params = evm.codec.encode_liq (record {
        collateral_asset = collateral_asset;
        debt_asset = debt_asset;
        borrower = borrower;
        debt_to_cover = debt_amount;
        sell_dex = swap.0;
        sell_fee = swap.1;
        min_profit = swap.2;
      })
      set_lock true
      set_strategy strat_liq
      bal ← look (evm.balance_of debt_asset evm.this)
      set_snapshot bal
      evm.flash_loan_simple c.pool (execute_operation evm c) evm.this debt_asset debt_amount params
          0
      set_lock false

    unfoldable pub execute_liquidation : ℕ → ℕ → ℕ → ℕ → ℕ → Text → Action G W (Unit {0})
    unfolding borrow
    execute_liquidation sender collateral_asset debt_asset borrower debt_amount swap_params =
        only_owner sender
          (non_reentrant (borrow collateral_asset debt_asset borrower debt_amount swap_params))

    -- One call from outside.
    unfoldable pub dispatch : ℕ → Message → Action G W (Unit {0})
    dispatch sender Message.execute_arbitrage = only_owner sender (revert not_yet_implemented)
    dispatch sender Message.execute_rebase_arb = only_owner sender (revert not_yet_implemented)
    dispatch sender Message.execute_flash_swap_arb = only_owner sender (revert not_yet_implemented)
    dispatch sender Message.execute_balancer_arb = only_owner sender (revert not_yet_implemented)
    dispatch sender Message.execute_liquidation_combo =
        only_owner sender (revert not_yet_implemented)
    dispatch sender Message.execute_batch_liquidations =
        only_owner sender (revert not_yet_implemented)
    dispatch sender Message.uniswap_v3_flash_callback = non_reentrant (revert not_yet_implemented)
    dispatch sender Message.receive_flash_loan = non_reentrant (revert not_yet_implemented)
    dispatch sender Message.receive_eth = pure tt
    dispatch sender Message.withdraw_eth = withdraw_eth sender
    dispatch sender (Message.withdraw_token token) = withdraw_token sender token
    dispatch sender (Message.emergency_withdraw token amount) =
        emergency_withdraw sender token amount
    dispatch sender (Message.execute_liquidation collateral debt borrower amount params) =
        execute_liquidation sender collateral debt borrower amount params
    dispatch sender (Message.execute_operation asset amount premium initiator params) =
        execute_operation evm c sender asset amount premium initiator params >>= λ _. pure tt
