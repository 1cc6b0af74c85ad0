-- ===== src/Contract/Profit.antt =====
-- src/AlphaRouting.sol: the liquidation in the callback.
use alpharouting.Prelude.{
  ℕ, ◌+◌, ◌^◌, ◌%◌, ◌<◌, ◌≤◌, ◌≡◌, sym, ap, ◌∙◌, subst, true, some, ◌==◌, [], ◌∷◌, ◌++◌,
}
use alpharouting.Text.{Text}
use alpharouting.Contract.{
  Immutables, State, done, LiqParams, liquidation_executed, strat_liq,
  health_factor_liquidation_threshold,
}
use alpharouting.Contract.Evm.{Evm, IsGuarding}
use alpharouting.Contract.Ensures.{
  Ensures, >>=-Ensures, pure-Ensures, revert-Ensures, gets-Ensures, decoded-Ensures, if-Ensures,
  require-Ensures, add-Ensures, weaken-Ensures,
}
use alpharouting.Contract.Strategy.{run_liquidation, execute_operation}
use alpharouting.Contract.Reentry.{Meanwhile, Keeps, Meanwhile-Keeps}
use alpharouting.Contract.Steps.{IsOutside, IsStandard, settle-Ensures, seize-Ensures, sell-Ensures}

module _ {G W : Type 0} (evm : Evm G W) (c : Immutables) where
  -- A liquidation in the callback, from `s` to `u`: the position was unhealthy, something was seized,
  -- and the balance covers the snapshot, the loan, its premium and the profit.
  pub record Profits (debt amount premium : ℕ) (params : Text) (s u : State G W) : Type 0 where
    pub p : LiqParams
    pub decodes : evm.codec.decode_liq params ≡ some p
    pub factor : ℕ
    pub answers : evm.get_health_factor c.pool p.borrower s.world ≡ done factor
    pub unhealthy : factor < health_factor_liquidation_threshold
    pub seized : ℕ
    pub took : 0 < seized
    pub profit : ℕ
    pub enough : p.min_profit ≤ profit
    pub balance :
        evm.balance_of debt evm.this u.world ≡ done (s.snapshot + (amount + premium) + profit)
    pub lock : u.lock ≡ s.lock
    pub strategy : u.strategy ≡ s.strategy
    pub snapshot : u.snapshot ≡ s.snapshot
    pub entered : evm.modifiers.entered u.inherited ≡ true
    pub logs :
        u.logs
        ≡ s.logs
          ++ liquidation_executed debt p.collateral_asset p.borrower p.debt_to_cover seized premium
              profit
            ∷ []

  module _ (guarding : IsGuarding evm.modifiers) (outside : IsOutside evm c) where
    run_liquidation-Profits :
        (debt amount premium : ℕ) (params : Text) (s : State G W)
        → evm.modifiers.entered s.inherited ≡ true
        → Ensures
            (run_liquidation evm c debt amount premium params)
            s
            (λ _ u. Profits debt amount premium params s u)
    unfolding run_liquidation
    run_liquidation-Profits debt amount premium params s h = >>=-Ensures _ _ (
        decoded-Ensures _ λ p e. >>=-Ensures _ _ (
          weaken-Ensures _ _
            (seize-Ensures evm c guarding outside debt _ _ _ s s
              (Meanwhile-Keeps evm c guarding h Meanwhile.stays))
            λ seized t (k, took, (factor, answers, unhealthy)). >>=-Ensures _ _ (
              weaken-Ensures _ _ (sell-Ensures evm c guarding outside _ _ _ _ _ s t k) λ _ t' k'.
                weaken-Ensures _ _
                  (settle-Ensures evm c guarding outside debt amount premium p.collateral_asset
                    p.borrower p.debt_to_cover p.min_profit seized t')
                  λ _ u (profit, balance, enough, same).
                    settled p e factor answers unhealthy seized took profit enough t' k' balance u
                      same)))
      where
        settled :
            (p : LiqParams)
            → evm.codec.decode_liq params ≡ some p
            → (factor : ℕ) → evm.get_health_factor c.pool p.borrower s.world ≡ done factor
            → factor < health_factor_liquidation_threshold
            → (seized : ℕ) → 0 < seized
            → (profit : ℕ) → p.min_profit ≤ profit
            → (t : State G W) → Keeps evm c s t
            → evm.balance_of debt evm.this t.world ≡ done (t.snapshot + (amount + premium) + profit)
            → (u : State G W)
            → u ≡ record t {
              logs =
                  t.logs
                  ++ liquidation_executed debt p.collateral_asset p.borrower p.debt_to_cover seized
                      premium profit
                    ∷ [];
            }
            → Profits debt amount premium params s u
        settled p e factor answers unhealthy seized took profit enough t k balance u same =
            subst (Profits debt amount premium params s) (sym same) (record {
              p = p;
              decodes = e;
              factor = factor;
              answers = answers;
              unhealthy = unhealthy;
              seized = seized;
              took = took;
              profit = profit;
              enough = enough;
              balance = balance ∙ ap (λ n. done (n + (amount + premium) + profit)) k.snapshot;
              lock = k.lock;
              strategy = k.strategy;
              snapshot = k.snapshot;
              entered = k.entered;
              logs =
                  ap
                    (λ events.
                      events
                      ++ liquidation_executed debt p.collateral_asset p.borrower p.debt_to_cover
                          seized premium profit
                        ∷ [])
                    k.logs;
            })

    -- To approve the pool changes none of it.
    then_approve :
        (debt amount premium : ℕ) (params : Text) (s t u : State G W)
        → IsStandard evm c debt
        → (token spender n : ℕ) (x : Unit {0}) → evm.force_approve token spender n t ≡ done (x, u)
        → Profits debt amount premium params s t
        → Profits debt amount premium params s u
    then_approve debt amount premium params s t u standard token spender n x p r =
        let k =
          Meanwhile-Keeps evm c guarding r.entered
            (outside.force_approve token spender n t x u p) in
        record {
          p = r.p;
          decodes = r.decodes;
          factor = r.factor;
          answers = r.answers;
          unhealthy = r.unhealthy;
          seized = r.seized;
          took = r.took;
          profit = r.profit;
          enough = r.enough;
          balance = standard token spender n t x u p ∙ r.balance;
          lock = k.lock ∙ r.lock;
          strategy = k.strategy ∙ r.strategy;
          snapshot = k.snapshot ∙ r.snapshot;
          entered = k.entered;
          logs = k.logs ∙ r.logs;
        }

    pub execute_operation-Profits :
        (sender debt amount premium initiator : ℕ) (params : Text) (s : State G W)
        → IsStandard evm c debt
        → evm.modifiers.entered s.inherited ≡ true
        → Ensures
            (execute_operation evm c sender debt amount premium initiator params)
            s
            (λ _ u. Profits debt amount premium params s u)
    unfolding execute_operation
    execute_operation-Profits sender debt amount premium initiator params s standard h =
        >>=-Ensures _ _ (
          require-Ensures _ _ λ _. >>=-Ensures _ _ (
            require-Ensures _ _ λ _. >>=-Ensures _ _ (
              gets-Ensures _ (
                >>=-Ensures _ _ (
                  require-Ensures _ _ λ _. >>=-Ensures _ _ (
                    gets-Ensures _ (
                      >>=-Ensures _ _ (
                        if-Ensures (s.strategy % 2 ^ 8 == strat_liq) _ _
                          (λ _.
                            weaken-Ensures _ _
                              (run_liquidation-Profits debt amount premium params s h)
                              λ _ t r. >>=-Ensures _ _ (
                                add-Ensures _ _ λ _. >>=-Ensures _ _ (record {
                                  holds = λ x u p. pure-Ensures _ (
                                      then_approve debt amount premium params s t u standard _ _ _ x
                                        p r);
                                })))
                          (λ _. revert-Ensures _)))))))))
