-- ===== src/Liquidator/Bot/Speaks.antt =====
-- crates/liquidator/src/main.rs and router.rs: the params of the liquidation that is sent.
use alpharouting.Prelude.{
  ℕ, ◌≡◌, refl, sym, ◌∙◌, subst, inl, inr, some, Option-cases, Bool-cases, List, leb, ◌==◌,
}
use alpharouting.Liquidator.Uint256.{Uint256}
use alpharouting.Liquidator.Settings.{Settings}
use alpharouting.Liquidator.Aave.{Build, health_factor_liquidation_threshold}
use alpharouting.Liquidator.Select.{ReserveBalance, select_liquidation_target}
use alpharouting.Liquidator.Bot.{
  Liquidation, Contracts, Abi, encode_swap_params, read_position, submit, liquidate,
  check_and_liquidate,
}
use alpharouting.Liquidator.Bot.Sends.{AllSent, none≢some, some_eq, send_lem}

-- The liquidation is of the borrower, and its params are the encoded settings.
pub record Speaks (abi : Abi) (settings : Settings) (borrower : ℕ) (l : Liquidation) : Type 0 where
  pub of : l.borrower ≡ borrower
  pub fee : ℕ
  pub converts : abi.uint24_from settings.sell_fee_bps ≡ some fee
  pub params : l.swap_params ≡ abi.encode_params settings.sell_dex fee settings.min_profit

module _ {S : Type 0} (u256 : Uint256) (contracts : Contracts S) (abi : Abi) (settings : Settings)
    (borrower : ℕ) where
  submit-Speaks :
      (bs : List ReserveBalance) (s : S)
      → AllSent (Speaks abi settings borrower) (submit u256 contracts abi settings borrower bs s).0
  unfolding submit encode_swap_params
  submit-Speaks bs s = elim (Option-cases (select_liquidation_target u256 bs)) [
    | inl p ↦ rw (p, submit) (λ l e. absurd (none≢some l e))
    | inr (t, p) ↦ elim (Option-cases (abi.uint24_from settings.sell_fee_bps)) [
      | inl q ↦ rw (p, submit, encode_swap_params, q) (λ l e. absurd (none≢some l e))
      | inr (fee, q) ↦
          let filled : Liquidation = record {
            collateral_asset = t.collateral_asset;
            debt_asset = t.debt_asset;
            borrower = borrower;
            debt_amount = t.debt_to_cover;
            swap_params = abi.encode_params settings.sell_dex fee settings.min_profit;
          } in
          rw (p, submit, encode_swap_params, q)
            (λ l e.
              subst (Speaks abi settings borrower)
                (some_eq (sym (send_lem u256 contracts filled s) ∙ e))
                (record { of = refl; fee = fee; converts = q; params = refl }))
    ]
  ]

  liquidate-Speaks :
      (build : Build) (reserves_list : List ℕ) (s : S)
      → AllSent
          (Speaks abi settings borrower)
          (liquidate u256 contracts abi build settings reserves_list borrower s).0
  unfolding liquidate
  liquidate-Speaks build reserves_list s =
      let (position, s') = read_position u256 contracts build reserves_list borrower s in
      elim (Option-cases position) [
        | inl p ↦ rw (p, liquidate) (λ l e. absurd (none≢some l e))
        | inr (inner, p) ↦ elim (Option-cases inner) [
          | inl q ↦ rw (p, liquidate, q) (λ l e. absurd (none≢some l e))
          | inr (bs, q) ↦ rw (p, liquidate, q) (submit-Speaks bs s')
        ]
      ]

  -- Whatever the contracts answer, a liquidation that is sent is of the borrower and has the encoded
  -- settings.
  pub check_and_liquidate-Speaks :
      (build : Build) (reserves_list : List ℕ) (s : S)
      → AllSent
          (Speaks abi settings borrower)
          (check_and_liquidate u256 contracts abi build settings reserves_list borrower s).0
  unfolding check_and_liquidate
  check_and_liquidate-Speaks build reserves_list s =
      let (answer, s') = contracts.get_user_account_data borrower s in
      elim (Option-cases answer) [
        | inl p ↦ rw (p, check_and_liquidate) (λ l e. absurd (none≢some l e))
        | inr (a, p) ↦ elim (Bool-cases (a.total_debt_base == 0)) [
          | inl q ↦ rw (p, check_and_liquidate, q) (λ l e. absurd (none≢some l e))
          | inr q ↦ elim (Bool-cases (leb health_factor_liquidation_threshold a.health_factor)) [
            | inl r ↦ rw (p, check_and_liquidate, q, r) (λ l e. absurd (none≢some l e))
            | inr r ↦ rw (p, check_and_liquidate, q, r) (liquidate-Speaks build reserves_list s')
          ]
        ]
      ]
