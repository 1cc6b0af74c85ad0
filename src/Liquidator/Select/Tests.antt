-- ===== src/Liquidator/Select/Tests.antt =====
-- The unit tests of crates/liquidator/src/select.rs, and the theorems at concrete inputs.
use alpharouting.Prelude.{
  ℕ, ◌*◌, ◌^◌, ◌<◌, ◌≡◌, ◌⊎◌, ◌↔◌, refl, true, false, none, some, List, [], ◌∷◌, All, arith,
}
use alpharouting.Liquidator.Uint256.{wrapping}
use alpharouting.Liquidator.Select.{ReserveBalance, LiquidationTarget, select_liquidation_target}
use alpharouting.Liquidator.Select.Choice.{
  IsRight, NoDebt, NoCollateral, select_liquidation_target-IsRight,
  select_liquidation_target-eq-none,
}

abbrev borrowed : ℕ → ℕ → ReserveBalance
borrowed asset debt = record {
  asset = asset;
  debt = debt;
  a_token = 0;
  is_collateral = false;
  is_borrowed = true;
}

abbrev reserves : List ReserveBalance
reserves =
    borrowed 1 100
    ∷ borrowed 2 500
    ∷ record { asset = 3; debt = 0; a_token = 1000; is_collateral = true; is_borrowed = false }
    ∷ []

abbrev target : LiquidationTarget
target = record { collateral_asset = 3; debt_asset = 2; debt_to_cover = 250 }

picks_largest_debt_and_largest_collateral :
    select_liquidation_target wrapping reserves ≡ some target
unfolding select_liquidation_target
picks_largest_debt_and_largest_collateral = refl

returns_none_without_any_collateral_reserve :
    select_liquidation_target wrapping (borrowed 1 1000 ∷ []) ≡ none
unfolding select_liquidation_target
returns_none_without_any_collateral_reserve = refl

reserves_small : All (λ r. r.debt * 5000 < 2 ^ 256) reserves
reserves_small = omega arith

select_liquidation_target-IsRight_example : IsRight reserves target
select_liquidation_target-IsRight_example =
    select_liquidation_target-IsRight wrapping reserves reserves_small target
      picks_largest_debt_and_largest_collateral

select_liquidation_target-eq-none_example :
    (select_liquidation_target wrapping reserves ≡ none) ↔ (NoDebt reserves ⊎ NoCollateral reserves)
select_liquidation_target-eq-none_example =
    select_liquidation_target-eq-none wrapping reserves reserves_small
