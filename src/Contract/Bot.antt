-- ===== src/Contract/Bot.antt =====
-- crates/liquidator/src/main.rs and src/AlphaRouting.sol: what the liquidator sends, run by the
-- contract.
use alpharouting.Prelude.{
  ℕ, ◌+◌, ◌≤◌, ◌<◌, ◌≡◌, sym, ap, ◌∙◌, Option, some, List, [], ◌∷◌, ◌++◌, arith,
}
use alpharouting.Text.{Text}
use alpharouting.Liquidator.Uint256.{Uint256}
use alpharouting.Liquidator.Settings.{Settings}
use alpharouting.Liquidator.Aave.{Build}
use alpharouting.Liquidator.Bot.{Liquidation, Contracts, Abi, check_and_liquidate}
use alpharouting.Liquidator.Bot.Sends.{sent}
use alpharouting.Liquidator.Bot.Speaks.{check_and_liquidate-Speaks}
use alpharouting.Contract.{Immutables, State, done, liquidation_executed}
use alpharouting.Contract.Evm.{Evm, Codec, IsGuarding, IsDecoding}
use alpharouting.Contract.Steps.{IsOutside, IsStandard}
use alpharouting.Contract.Lending.{IsLending}
use alpharouting.Contract.Loan.{execute_liquidation-Liquidated}
use alpharouting.Contract.Entry.{execute_liquidation}

-- The contract decodes what the liquidator encodes.
abbrev pub IsAgreed : Abi → Codec → Type 0
IsAgreed abi codec =
    (dex : Text) (fee min_profit : ℕ)
    → codec.decode_swap (abi.encode_params dex fee min_profit) ≡ some (dex, fee, min_profit)

module _ {G W : Type 0} (evm : Evm G W) (c : Immutables) where
  -- A call of the owner's for the borrower that earned at least the minimum of the settings.
  pub record Earned (settings : Settings) (sender borrower : ℕ) (l : Liquidation) (s u : State G W)
      : Type 0 where
    pub owns : sender ≡ evm.modifiers.owner s.inherited
    pub before : ℕ
    pub balance_before : evm.balance_of l.debt_asset evm.this s.world ≡ done before
    pub profit : ℕ
    pub enough : settings.min_profit ≤ profit
    pub balance_after : evm.balance_of l.debt_asset evm.this u.world ≡ done (before + profit)
    pub premium : ℕ
    pub seized : ℕ
    pub took : 0 < seized
    pub logs :
        u.logs
        ≡ s.logs
          ++ liquidation_executed l.debt_asset l.collateral_asset borrower l.debt_amount seized
              premium profit
            ∷ []

  module _ (guarding : IsGuarding evm.modifiers) (outside : IsOutside evm c)
      (decoding : IsDecoding evm.codec) where
    -- If the check of a borrower sends a liquidation and the contract runs it without reverting,
    -- in whatever state it is by then, then the sender is the contract's owner, the event names
    -- the borrower that was checked, and the contract's balance of the debt asset has grown by at
    -- least the minimum profit of the liquidator's settings. The two encodings agree; the
    -- modifiers, abi.decode, the pool and the debt asset do what is documented of them; and other
    -- contracts act on this one only by calling it.
    pub check_and_liquidate-Earned :
        {S : Type 0} (u256 : Uint256) (contracts : Contracts S) (abi : Abi) (build : Build)
        (settings : Settings) (reserves_list : List ℕ) (borrower : ℕ) (t : S) (l : Liquidation)
        (sender : ℕ) (s u : State G W)
        → IsAgreed abi evm.codec
        → IsStandard evm c l.debt_asset
        → IsLending evm c l.debt_asset
        → sent (check_and_liquidate u256 contracts abi build settings reserves_list borrower t).0
          ≡ some l
        → execute_liquidation evm c sender l.collateral_asset l.debt_asset l.borrower l.debt_amount
            l.swap_params s
          ≡ done (tt, u)
        → Earned settings sender borrower l s u
    check_and_liquidate-Earned u256 contracts abi build settings reserves_list borrower t l sender s
          u agreed standard lending e p =
        let said =
          check_and_liquidate-Speaks u256 contracts abi settings borrower build reserves_list t l
            e in
        let r =
          execute_liquidation-Liquidated evm c guarding outside decoding sender l.collateral_asset
            l.debt_asset l.borrower l.debt_amount l.swap_params s u standard lending p in
        let same : (r.loan.dex, r.loan.fee, r.loan.min_profit)
            ≡ (settings.sell_dex, said.fee, settings.min_profit) =
          some_swap (
            sym r.loan.decodes
            ∙ ap (λ params. evm.codec.decode_swap params) said.params
            ∙ agreed settings.sell_dex said.fee settings.min_profit) in
        record {
          owns = r.owns;
          before = r.loan.before;
          balance_before = r.loan.balance_before;
          profit = r.loan.profit;
          enough = omega (arith, r.loan.enough, ap (λ d. d.2) same);
          balance_after = r.loan.balance_after;
          premium = r.loan.premium;
          seized = r.loan.seized;
          took = r.loan.took;
          logs =
              r.loan.logs
              ∙ ap
                  (λ b.
                    s.logs
                    ++ liquidation_executed l.debt_asset l.collateral_asset b l.debt_amount
                        r.loan.seized r.loan.premium r.loan.profit
                      ∷ [])
                  said.of;
        }
      where
        some_swap : {a b : Text × ℕ × ℕ} → ◌≡◌ {A = Option (Text × ℕ × ℕ)} (some a) (some b) → a ≡ b
        some_swap q = cc
