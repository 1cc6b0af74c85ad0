-- ===== src/Contract/Tests.antt =====
-- The unit tests of test/AlphaRouting.t.sol, and the theorems at concrete inputs.
use alpharouting.Prelude.{◌*◌, ◌^◌, ◌≡◌, ◌⊎◌, refl, some, [], arith, ◌≢◌, false}
use alpharouting.Text.{codes, text_eq}
use alpharouting.Contract.{
  done, reverted, ◌>>=◌, pure, revert, require, decoded, look, gets, modify, add, sub,
  position_still_healthy, min_profit_not_met, unauthorized_callback, unauthorized_account,
  aave_not_available, not_yet_implemented, Immutables, Outcome, State,
}
use alpharouting.Liquidator.Uint256.{wrapping}
use alpharouting.Liquidator.Aave.{debug, decode_user_configuration}
use alpharouting.Liquidator.Select.{select_liquidation_target}
use alpharouting.Liquidator.Bot.{check_and_liquidate}
use alpharouting.Liquidator.Bot.Sends.{sent}
use alpharouting.Liquidator.Samples.{contracts, abi, reserves_list, low}
use alpharouting.Contract.Message.{Message}
use alpharouting.Contract.Swap.{router_for, swap}
use alpharouting.Contract.Strategy.{run_liquidation, execute_operation, sell, seize, settle}
use alpharouting.Contract.Entry.{
  only_owner, non_reentrant, borrow, execute_liquidation, withdraw_token, dispatch, construct,
}
use alpharouting.Contract.Reentry.{Meanwhile, Keeps, Meanwhile-Keeps}
use alpharouting.Contract.Access.{IsIdle, IsOwners, Owned, Reached, call-Admitted, Reached-IsIdle}
use alpharouting.Contract.Dexes.{routed, router_named, routers, router_for-routed}
use alpharouting.Contract.Withdraw.{Withdrawn, withdraw_token-Withdrawn}
use alpharouting.Contract.Bot.{Earned, check_and_liquidate-Earned}
use alpharouting.Contract.Lending.{Liquidated}
use alpharouting.Contract.Loan.{execute_liquidation-Liquidated}
use alpharouting.Contract.Deploy.{chain_monad_mainnet, routers_on, deploy, no_lending-reverts}
use alpharouting.Config.Chains.{monad}
use alpharouting.Config.Registry.{for_chain_id}
use alpharouting.Contract.Mock.{
  Guard, Ledger, this, mock, move, flash_loan_simple, liquidation_call, exact_input_single,
}
use alpharouting.Contract.Mock.Laws.{
  modifiers-IsGuarding, mock-IsDecoding, mock-IsOutside, mock-IsStandard, mock-IsLending,
  mock-IsTransferring,
}
use alpharouting.Contract.Samples.{
  owner, stranger, borrower, usdc, weth, c, state, swap_params, run, run_ends, after, final,
  entered, uniswap_settings, sent_liquidation, earned, uniswap_names_no_other,
}

profitable_liquidation : final.world.balances usdc this ≡ 165100000
unfolding run ◌>>=◌ pure require decoded look gets modify add sub only_owner non_reentrant
    flash_loan_simple execute_operation run_liquidation seize sell settle swap router_for text_eq
    liquidation_call exact_input_single
profitable_liquidation = refl

execute_liquidation-Liquidated_example :
    Liquidated mock c owner weth usdc borrower
      (1000 * 10 ^ 6)
      (swap_params 1)
      (state (95 * 10 ^ 16) 1166)
      final
unfolding run
execute_liquidation-Liquidated_example =
    execute_liquidation-Liquidated mock c modifiers-IsGuarding (mock-IsOutside c) mock-IsDecoding
      owner weth usdc borrower (1000 * 10 ^ 6) (swap_params 1) (state (95 * 10 ^ 16) 1166) final
      (mock-IsStandard c usdc) (mock-IsLending c refl usdc) run_ends

-- test_revertsWhen_notOwner.
not_owner : run stranger (95 * 10 ^ 16) 1166 0 ≡ reverted unauthorized_account
unfolding run only_owner
not_owner = refl

-- test_revertsWhen_positionStillHealthy.
still_healthy : run owner (12 * 10 ^ 17) 1166 0 ≡ reverted (position_still_healthy (12 * 10 ^ 17))
unfolding run ◌>>=◌ pure require decoded look gets modify add sub only_owner non_reentrant
    flash_loan_simple execute_operation run_liquidation seize sell settle swap router_for text_eq
    liquidation_call exact_input_single
still_healthy = refl

-- test_revertsWhen_minProfitNotMet.
too_little :
    run owner (90 * 10 ^ 16) 1005 (10 ^ 12) ≡ reverted (min_profit_not_met 4100000 (10 ^ 12))
unfolding run ◌>>=◌ pure require decoded look gets modify add sub only_owner non_reentrant
    flash_loan_simple execute_operation run_liquidation seize sell settle swap router_for text_eq
    liquidation_call exact_input_single
too_little = refl

-- test_revertsWhen_callbackCalledDirectly.
called_directly :
    dispatch mock c stranger
      (Message.execute_operation usdc (1000 * 10 ^ 6) (10 ^ 6) this [])
      (state (95 * 10 ^ 16) 1166)
    ≡ reverted unauthorized_callback
unfolding dispatch ◌>>=◌ execute_operation require
called_directly = refl

-- test_revertsWhen_aaveNotAvailable.
no_aave :
    execute_liquidation mock
      (record c { pool = 0 })
      owner
      weth
      usdc
      borrower
      (1000 * 10 ^ 6)
      (swap_params 0)
      (state (95 * 10 ^ 16) 1166)
    ≡ reverted aave_not_available
unfolding execute_liquidation only_owner non_reentrant borrow ◌>>=◌ require
no_aave = refl

-- test_unimplementedStrategies_revertExplicitly.
not_implemented :
    dispatch mock c owner Message.execute_arbitrage (state (95 * 10 ^ 16) 1166)
    ≡ reverted not_yet_implemented
unfolding dispatch only_owner revert
not_implemented = refl

-- test_ownerCanWithdrawProfit.
withdrawn_profit :
    (after (withdraw_token mock owner usdc final) final).world.balances usdc owner ≡ 165100000
unfolding run ◌>>=◌ pure require decoded look gets modify add sub only_owner non_reentrant
    flash_loan_simple execute_operation run_liquidation seize sell settle swap router_for text_eq
    liquidation_call exact_input_single withdraw_token move
withdrawn_profit = refl

pays_in : dispatch mock c stranger Message.receive_eth entered ≡ done (tt, entered)
unfolding dispatch pure
pays_in = refl

Meanwhile-Keeps_example : Keeps mock c entered (record entered { world = final.world })
Meanwhile-Keeps_example = Meanwhile-Keeps mock c modifiers-IsGuarding refl (
    Meanwhile.elsewhere
      (Meanwhile.comes_back Meanwhile.stays stranger Message.receive_eth tt pays_in) final.world)

idle : IsIdle mock c (state (95 * 10 ^ 16) 1166)
idle = record { unlocked = refl; left = refl }

liquidates :
    dispatch mock c owner
      (Message.execute_liquidation weth usdc borrower (1000 * 10 ^ 6) (swap_params 1))
      (state (95 * 10 ^ 16) 1166)
    ≡ done (tt, final)
unfolding dispatch run
liquidates = run_ends

call-Admitted_example :
    ((Message.execute_liquidation weth usdc borrower (1000 * 10 ^ 6) (swap_params 1)
        ≡ Message.receive_eth)
      × (final ≡ state (95 * 10 ^ 16) 1166))
    ⊎ (IsOwners (Message.execute_liquidation weth usdc borrower (1000 * 10 ^ 6) (swap_params 1))
        × Owned mock c owner (state (95 * 10 ^ 16) 1166) final)
call-Admitted_example =
    call-Admitted mock c modifiers-IsGuarding (mock-IsOutside c) owner
      (Message.execute_liquidation weth usdc borrower (1000 * 10 ^ 6) (swap_params 1))
      (state (95 * 10 ^ 16) 1166) final idle liquidates

Reached-IsIdle_example : IsIdle mock c final
Reached-IsIdle_example = Reached-IsIdle mock c modifiers-IsGuarding (mock-IsOutside c) idle (
    Reached.called Reached.deployed owner
      (Message.execute_liquidation weth usdc borrower (1000 * 10 ^ 6) (swap_params 1)) liquidates)

router_for-routed_example :
    router_for mock c (codes "uniswap") entered
    ≡ routed mock c (codes "uniswap") (router_named (codes "uniswap") (routers c)) entered
unfolding text_eq
router_for-routed_example =
    router_for-routed mock c (codes "uniswap") entered uniswap_names_no_other

withdrawal :
    withdraw_token mock owner usdc final
    ≡ done (tt, after (withdraw_token mock owner usdc final) final)
unfolding run ◌>>=◌ pure require decoded look gets modify add sub only_owner non_reentrant
    flash_loan_simple execute_operation run_liquidation seize sell settle swap router_for text_eq
    liquidation_call exact_input_single withdraw_token move
withdrawal = refl

withdraw_token-Withdrawn_example :
    Withdrawn mock owner usdc 0 final (after (withdraw_token mock owner usdc final) final)
unfolding run ◌>>=◌ pure require decoded look gets modify add sub only_owner non_reentrant
    flash_loan_simple execute_operation run_liquidation seize sell settle swap router_for text_eq
    liquidation_call exact_input_single
withdraw_token-Withdrawn_example =
    withdraw_token-Withdrawn mock c modifiers-IsGuarding (mock-IsOutside c) owner usdc 0 final
      (after (withdraw_token mock owner usdc final) final) (mock-IsTransferring usdc)
      (λ p. ground (arith, p)) refl withdrawal

sends :
    sent
      (check_and_liquidate wrapping (contracts low) abi debug uniswap_settings reserves_list 9 0).0
    ≡ some sent_liquidation
unfolding check_and_liquidate decode_user_configuration select_liquidation_target
sends = refl

earns :
    execute_liquidation mock c owner weth usdc 9 5 (swap_params 1) (state (95 * 10 ^ 16) 2000)
    ≡ done (tt, earned)
unfolding execute_liquidation borrow ◌>>=◌ pure require decoded look gets modify add sub only_owner
    non_reentrant flash_loan_simple execute_operation run_liquidation seize sell settle swap
    router_for text_eq liquidation_call exact_input_single
earns = refl

check_and_liquidate-Earned_example :
    Earned mock c uniswap_settings owner 9 sent_liquidation (state (95 * 10 ^ 16) 2000) earned
check_and_liquidate-Earned_example =
    check_and_liquidate-Earned mock c modifiers-IsGuarding (mock-IsOutside c) mock-IsDecoding
      wrapping (contracts low) abi debug uniswap_settings reserves_list 9 0 sent_liquidation owner
      (state (95 * 10 ^ 16) 2000) earned (λ dex fee min_profit. refl) (mock-IsStandard c usdc)
      (mock-IsLending c refl usdc) sends earns

-- The contract on Monad.
abbrev monad_contract : Immutables
monad_contract = record {
  aave_provider = 0;
  uniswap_v3_router = 0;
  sushiswap_v3_router = 0;
  baseswap_v3_router = 0;
  pancakeswap_v3_router = 0;
  aerodrome_router = 0;
  pool = 0;
  balancer_vault = 0;
}

no_lending-reverts_example :
    ◌≢◌ {A = Outcome (Unit {0} × State Guard Ledger)}
      (execute_liquidation mock monad_contract owner weth usdc borrower 5 (swap_params 1) entered)
      (done (tt, entered))
unfolding deploy construct for_chain_id routers_on
no_lending-reverts_example =
    no_lending-reverts mock (λ key. key) 0 owner chain_monad_mainnet monad entered.world
      monad_contract (record { owner = owner; entered = false }) refl refl refl owner weth usdc
      borrower 5 (swap_params 1) entered entered
