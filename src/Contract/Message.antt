-- ===== src/Contract/Message.antt =====
-- src/AlphaRouting.sol: the calls that it takes.
use alpharouting.Prelude.{ℕ}
use alpharouting.Text.{Text}

-- The external functions that the contract declares itself, and `receive`. The getters of its public
-- variables change nothing, and what `Ownable` adds is OpenZeppelin's. The arguments of those that are not yet implemented have no
-- names in the code.
pub data Message : Type 0 where
  execute_arbitrage execute_rebase_arb execute_flash_swap_arb execute_balancer_arb : Message
  execute_liquidation_combo execute_batch_liquidations : Message
  uniswap_v3_flash_callback receive_flash_loan receive_eth withdraw_eth : Message
  execute_liquidation :
      (collateral_asset debt_asset borrower debt_amount : ℕ) (swap_params : Text) → Message
  execute_operation : (asset amount premium initiator : ℕ) (params : Text) → Message
  withdraw_token : (token : ℕ) → Message
  emergency_withdraw : (token amount : ℕ) → Message
