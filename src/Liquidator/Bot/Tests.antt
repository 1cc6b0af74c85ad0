-- ===== src/Liquidator/Bot/Tests.antt =====
-- The check of crates/liquidator/src/main.rs at concrete inputs: a borrower with a debt in the first
-- of three reserves and collateral in the third.
use alpharouting.Prelude.{◌^◌, ◌≡◌, refl, arith}
use alpharouting.Liquidator.Uint256.{wrapping}
use alpharouting.Liquidator.Aave.{debug, release, decode_user_configuration}
use alpharouting.Liquidator.Select.{select_liquidation_target}
use alpharouting.Liquidator.Bot.{liquidated, healthy, panicked, check_and_liquidate}
use alpharouting.Liquidator.Samples.{
  account, info, contracts, abi, settings, liquidation, reserves_list, low, flags,
  contracts-Answers,
}
use alpharouting.Liquidator.Bot.Answered.{positions, EndsRightly, check_and_liquidate-EndsRightly}

liquidates_half_of_the_debt :
    check_and_liquidate wrapping (contracts low) abi debug (settings 3000) reserves_list 9 0
    ≡ (liquidated liquidation, 1)
unfolding check_and_liquidate decode_user_configuration select_liquidation_target
liquidates_half_of_the_debt = refl

leaves_a_healthy_position :
    check_and_liquidate wrapping (contracts (10 ^ 18)) abi debug (settings 3000) reserves_list 9 0
    ≡ (healthy, 0)
unfolding check_and_liquidate decode_user_configuration select_liquidation_target
leaves_a_healthy_position = refl

panics_on_a_fee_of_25_bits :
    check_and_liquidate wrapping (contracts low) abi debug (settings (2 ^ 24)) reserves_list 9 0
    ≡ (panicked, 0)
unfolding check_and_liquidate decode_user_configuration select_liquidation_target
panics_on_a_fee_of_25_bits = refl

check_and_liquidate-EndsRightly_example :
    EndsRightly wrapping
      (contracts low)
      9
      (positions (λ reserve. info) reserves_list flags)
      (check_and_liquidate wrapping (contracts low) abi release (settings 3000) reserves_list 9 0).0
check_and_liquidate-EndsRightly_example =
    check_and_liquidate-EndsRightly wrapping (contracts low) 9 (account low) flags (λ reserve. info)
      contracts-Answers abi release (settings 3000) reserves_list 3000 0 (omega arith) (omega arith)
      refl (omega arith) (omega arith)
