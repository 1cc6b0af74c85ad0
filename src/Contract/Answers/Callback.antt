-- ===== src/Contract/Answers/Callback.antt =====
-- src/AlphaRouting.sol: the flash loan's callback, by what the other contracts answer.
use alpharouting.Prelude.{
  ℕ, ◌+◌, ◌-◌, ◌%◌, ◌^◌, ◌<◌, ◌≤◌, ◌≡◌, refl, ap, true, false, some, [], ◌∷◌, ◌++◌, arith, ◌==◌,
}
use alpharouting.Text.{Text}
use alpharouting.Contract.{
  Immutables, State, Outcome, LiqParams, done, modify, liquidation_executed,
  health_factor_liquidation_threshold, strat_liq, pure,
}
use alpharouting.Contract.Evm.{Evm}
use alpharouting.Contract.Strategy.{settle, seize, run_liquidation, execute_operation}
use alpharouting.Contract.Answers.{
  Ends, >>=-Ends, look-Ends, decoded-Ends, gets-Ends, require-Ends, add-Ends, sub-Ends,
}
use alpharouting.Contract.Answers.Sales.{Sold, sell-Ends}

module _ {G W : Type 0} (evm : Evm G W) (c : Immutables) where
  -- Other contracts do what a liquidation from `s` asks of them: the position is unhealthy, the pool
  -- pays out collateral, it is sold, the balance then covers the loan and the minimum profit within
  -- 256 bits, and the repayment is approved. Nobody touches the contract's slots.
  pub record Obliges (debt amount premium : ℕ) (p : LiqParams) (s : State G W) : Type 0 where
    pub factor : ℕ
    pub answers : evm.get_health_factor c.pool p.borrower s.world ≡ done factor
    pub unhealthy : factor < health_factor_liquidation_threshold
    pub held : ℕ
    pub collateral_before : evm.balance_of p.collateral_asset evm.this s.world ≡ done held
    pub approved : State G W
    pub approves : evm.force_approve debt c.pool p.debt_to_cover s ≡ done (tt, approved)
    pub liquidated : State G W
    pub liquidates :
        evm.liquidation_call c.pool p.collateral_asset debt p.borrower p.debt_to_cover false
          approved
        ≡ done (tt, liquidated)
    pub seized : ℕ
    pub took : 0 < seized
    pub collateral_after :
        evm.balance_of p.collateral_asset evm.this liquidated.world ≡ done (held + seized)
    pub sold : State G W
    pub sells : Sold evm c p.sell_dex p.collateral_asset debt p.sell_fee seized liquidated sold
    pub same_snapshot : sold.snapshot ≡ s.snapshot
    pub profit : ℕ
    pub enough : p.min_profit ≤ profit
    pub balance :
        evm.balance_of debt evm.this sold.world ≡ done (s.snapshot + (amount + premium) + profit)
    pub fits : s.snapshot + (amount + premium) + profit < 2 ^ 256
    pub repayable : State G W
    pub approves_repayment :
        evm.force_approve debt c.pool (amount + premium) (record sold {
          logs =
              sold.logs
              ++ liquidation_executed debt p.collateral_asset p.borrower p.debt_to_cover seized
                  premium profit
                ∷ [];
        })
        ≡ done (tt, repayable)

  module _ (debt amount premium : ℕ) (p : LiqParams) (s : State G W)
      (o : Obliges debt amount premium p s) where
    seize-Ends :
        Ends
          (seize evm c debt p.collateral_asset p.borrower p.debt_to_cover)
          s
          o.seized
          o.liquidated
    unfolding seize pure
    seize-Ends = >>=-Ends _ _ (look-Ends _ o.answers) (
        >>=-Ends _ _ (require-Ends _ _ (ground (arith, o.unhealthy))) (
          >>=-Ends _ _ (look-Ends _ o.collateral_before) (
            >>=-Ends _ _ (record { ends = o.approves })
              (>>=-Ends _ _ (record { ends = o.liquidates })
                (>>=-Ends _ _ (look-Ends _ o.collateral_after) (
                  >>=-Ends _ _ (sub-Ends (o.held + o.seized) o.held (omega arith)) (
                    >>=-Ends _ _ (require-Ends _ _ (ground (arith, o.took)))
                      (record { ends = ap (λ n. done (n, o.liquidated)) (omega arith) }))))))))

    -- The state after the event.
    emitted : State G W
    emitted = record o.sold {
      logs =
          o.sold.logs
          ++ liquidation_executed debt p.collateral_asset p.borrower p.debt_to_cover o.seized
              premium o.profit
            ∷ [];
    }

    settle-Ends :
        Ends
          (settle evm c debt amount premium p.collateral_asset p.borrower p.debt_to_cover
            p.min_profit o.seized)
          o.sold
          tt
          emitted
    unfolding settle emitted modify
    settle-Ends =
        let final = s.snapshot + (amount + premium) + o.profit in
        let owed = amount + premium in
        let n : final - o.sold.snapshot - owed ≡ o.profit = omega (arith, o.same_snapshot) in
        >>=-Ends _ _ (add-Ends amount premium (omega (arith, o.fits))) (
          >>=-Ends _ _ (gets-Ends _) (
            >>=-Ends _ _ (look-Ends _ o.balance) (
              >>=-Ends _ _ (add-Ends o.sold.snapshot owed (omega (arith, o.fits, o.same_snapshot)))
                (>>=-Ends _ _ (require-Ends _ _ (ground (arith, o.same_snapshot))) (
                  >>=-Ends _ _ (sub-Ends final o.sold.snapshot (omega (arith, o.same_snapshot))) (
                    >>=-Ends _ _
                      (sub-Ends (final - o.sold.snapshot) owed (omega (arith, o.same_snapshot)))
                      (>>=-Ends _ _ (require-Ends _ _ (ground (arith, o.enough, n)))
                        (record { ends = ap ended n }))))))))
      where
        ended : ℕ → Outcome (Unit {0} × State G W)
        ended profit = done (
          tt,
          record o.sold {
            logs =
                o.sold.logs
                ++ liquidation_executed debt p.collateral_asset p.borrower p.debt_to_cover o.seized
                    premium profit
                  ∷ [];
          },
        )

    run_liquidation-Ends :
        (params : Text)
        → evm.codec.decode_liq params ≡ some p
        → Ends (run_liquidation evm c debt amount premium params) s tt emitted
    unfolding run_liquidation
    run_liquidation-Ends params e =
        >>=-Ends _ _ (decoded-Ends _ e) (
          >>=-Ends _ _ seize-Ends
            (>>=-Ends _ _ (sell-Ends evm c _ _ _ _ _ _ _ o.sells) settle-Ends))

    -- If other contracts do what the liquidation asks of them, then the callback that the pool makes
    -- while the lock is set for a liquidation returns true.
    pub execute_operation-Ends :
        (params : Text)
        → evm.codec.decode_liq params ≡ some p
        → s.lock ≡ 1
        → s.strategy ≡ strat_liq
        → Ends
            (execute_operation evm c c.pool debt amount premium evm.this params)
            s
            true
            o.repayable
    unfolding execute_operation pure emitted
    execute_operation-Ends params e locked chosen =
        let ours : (s.strategy % 2 ^ 8 == strat_liq) ≡ true = rw chosen refl in
        >>=-Ends _ _ (require-Ends _ _ (ground arith)) (
          >>=-Ends _ _ (require-Ends _ _ (ground arith)) (
            >>=-Ends _ _ (gets-Ends _) (
              >>=-Ends _ _ (require-Ends _ _ (ground (arith, locked))) (
                >>=-Ends _ _ (gets-Ends _) (
                  >>=-Ends _ _ (record { ends = rw ours (run_liquidation-Ends params e).ends })
                    (>>=-Ends _ _ (add-Ends amount premium (omega (arith, o.fits))) (
                      >>=-Ends _ _ (record { ends = o.approves_repayment })
                        (record { ends = refl }))))))))
