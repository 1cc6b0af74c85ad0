-- ===== src/Contract/Loan.antt =====
-- src/AlphaRouting.sol: a whole `executeLiquidation`.
use alpharouting.Prelude.{ℕ, ◌+◌, ◌-◌, ◌≡◌, refl, sym, ap, ◌∙◌, true, some, arith, [], ◌∷◌, ◌++◌}
use alpharouting.Text.{Text}
use alpharouting.Contract.{Immutables, State, done, LiqParams, liquidation_executed, strat_liq}
use alpharouting.Contract.Evm.{Evm, IsGuarding, IsDecoding}
use alpharouting.Contract.Ensures.{
  Ensures, >>=-Ensures, decoded-Ensures, look-Ensures, require-Ensures, modify-Ensures,
  weaken-Ensures,
}
use alpharouting.Contract.Guards.{only_owner-Ensures, non_reentrant-Ensures}
use alpharouting.Contract.Reentry.{Meanwhile, Keeps, Meanwhile-Keeps}
use alpharouting.Contract.Steps.{IsOutside, IsStandard}
use alpharouting.Contract.Strategy.{execute_operation}
use alpharouting.Contract.Profit.{Profits, execute_operation-Profits}
use alpharouting.Contract.Entry.{borrow, execute_liquidation}
use alpharouting.Contract.Lending.{IsLending, Borrowed, Liquidated}

module _ {G W : Type 0} (evm : Evm G W) (c : Immutables) where
  module _ (guarding : IsGuarding evm.modifiers) (outside : IsOutside evm c)
      (decoding : IsDecoding evm.codec) where
    some_inj : {A : Type 0} {a b : A} → some a ≡ some b → a ≡ b
    some_inj e = cc

    -- From the loan's callback to the end of the loan.
    repaid :
        (collateral debt borrower amount premium before : ℕ) (swap_params dex : Text)
        (fee min_profit : ℕ) (s a b t : State G W)
        → evm.codec.decode_swap swap_params ≡ some (dex, fee, min_profit)
        → evm.balance_of debt evm.this s.world ≡ done before
        → Keeps evm c (record s { lock = 1; strategy = strat_liq; snapshot = before }) a
        → Meanwhile evm c (record s { lock = 1; strategy = strat_liq; snapshot = before }) a
        → execute_operation evm c c.pool debt amount premium evm.this
            (evm.codec.encode_liq (record {
              collateral_asset = collateral;
              debt_asset = debt;
              borrower = borrower;
              debt_to_cover = amount;
              sell_dex = dex;
              sell_fee = fee;
              min_profit = min_profit;
            }))
            a
          ≡ done (true, b)
        → Profits evm c debt amount premium
            (evm.codec.encode_liq (record {
              collateral_asset = collateral;
              debt_asset = debt;
              borrower = borrower;
              debt_to_cover = amount;
              sell_dex = dex;
              sell_fee = fee;
              min_profit = min_profit;
            }))
            a
            b
        → Meanwhile evm c b t
        → ((n : ℕ)
            → evm.balance_of debt evm.this b.world ≡ done n
            → evm.balance_of debt evm.this t.world ≡ done (n - (amount + premium)))
        → Borrowed evm c collateral debt borrower amount swap_params s (record t { lock = 0 })
    repaid collateral debt borrower amount premium before swap_params dex fee min_profit s a b t e
          bal k began called r m pulled =
        let params : LiqParams = record {
          collateral_asset = collateral;
          debt_asset = debt;
          borrower = borrower;
          debt_to_cover = amount;
          sell_dex = dex;
          sell_fee = fee;
          min_profit = min_profit;
        } in
        let same : r.p ≡ params = some_inj (sym r.decodes ∙ decoding params) in
        let k' = Meanwhile-Keeps evm c guarding r.entered m in
        record {
          dex = dex;
          fee = fee;
          min_profit = min_profit;
          decodes = e;
          before = before;
          balance_before = bal;
          profit = r.profit;
          enough = omega (arith, r.enough, ap (λ p. p.min_profit) same);
          balance_after =
              pulled _ r.balance
              ∙ ap (λ n. done (n + (amount + premium) + r.profit - (amount + premium))) k.snapshot
              ∙ ap done (omega arith);
          premium = premium;
          seized = r.seized;
          took = r.took;
          logs =
              k'.logs
              ∙ r.logs
              ∙ ap
                  (λ p.
                    a.logs
                    ++ liquidation_executed debt p.collateral_asset p.borrower p.debt_to_cover
                        r.seized premium r.profit
                      ∷ [])
                  same
              ∙ ap
                  (λ events.
                    events
                    ++ liquidation_executed debt collateral borrower amount r.seized premium
                        r.profit
                      ∷ [])
                  k.logs;
          factor = r.factor;
          called = a;
          until_called = began;
          returned = b;
          callback = called;
          answers =
              ap (λ p. evm.get_health_factor c.pool p.borrower a.world) (sym same) ∙ r.answers;
          unhealthy = r.unhealthy;
          unlocked = refl;
        }

    borrow-Borrowed :
        (collateral debt borrower amount : ℕ) (swap_params : Text) (s : State G W)
        → IsStandard evm c debt
        → IsLending evm c debt
        → evm.modifiers.entered s.inherited ≡ true
        → Ensures
            (borrow evm c collateral debt borrower amount swap_params)
            s
            (λ _ u. Borrowed evm c collateral debt borrower amount swap_params s u)
    unfolding borrow
    borrow-Borrowed collateral debt borrower amount swap_params s standard lending h =
        >>=-Ensures _ _ (
          require-Ensures _ _ λ _. >>=-Ensures _ _ (
            require-Ensures _ _ λ _. >>=-Ensures _ _ (
              decoded-Ensures _ λ (dex, fee, min_profit) e. >>=-Ensures _ _ (
                modify-Ensures _ (
                  >>=-Ensures _ _ (
                    modify-Ensures _ (
                      >>=-Ensures _ _ (
                        look-Ensures _ λ before bal. >>=-Ensures _ _ (
                          modify-Ensures _ (
                            >>=-Ensures _ _ (record {
                              holds = λ x t p.
                                  let (premium, a, b, m, called, m', pulled) =
                                    lending amount _ _ t x p in
                                  let k = Meanwhile-Keeps evm c guarding h m in
                                  let r =
                                    (execute_operation-Profits evm c guarding outside c.pool debt
                                        amount premium evm.this _ a standard k.entered).holds
                                      true b called in
                                  modify-Ensures _ (
                                    repaid collateral debt borrower amount premium before
                                      swap_params dex fee min_profit s a b t e bal k m called r m'
                                      pulled);
                            })))))))))))

    -- If executeLiquidation does not revert, whatever other contracts do meanwhile and whichever
    -- calls come back: it was the owner's call, the position was unhealthy in the state in which the
    -- pool called back for the loan, and something was seized; the balance of the debt asset has grown by a profit of at least
    -- the minimum in the params, which is the profit of the one event that was added; and the
    -- lock and the guard are down. The modifiers, abi.decode, the pool and the debt asset do what
    -- is documented of them, and other contracts act on this one only by calling it.
    pub execute_liquidation-Liquidated :
        (sender collateral debt borrower amount : ℕ) (swap_params : Text) (s u : State G W)
        → IsStandard evm c debt
        → IsLending evm c debt
        → execute_liquidation evm c sender collateral debt borrower amount swap_params s
          ≡ done (tt, u)
        → Liquidated evm c sender collateral debt borrower amount swap_params s u
    unfolding execute_liquidation
    execute_liquidation-Liquidated sender collateral debt borrower amount swap_params s u standard
          lending p =
        ensured.holds tt u p
      where
        ensured :
            Ensures
              (execute_liquidation evm c sender collateral debt borrower amount swap_params)
              s
              (λ _ u. Liquidated evm c sender collateral debt borrower amount swap_params s u)
        ensured = only_owner-Ensures evm _ _ λ own. non_reentrant-Ensures evm _ λ g entering.
            weaken-Ensures _ _
              (borrow-Borrowed collateral debt borrower amount swap_params
                (record s { inherited = g }) standard lending
                (guarding.enters s.inherited g entering).0)
              λ _ t b. record {
                owns = guarding.owns sender s.inherited own;
                guard = g;
                enters = entering;
                loan = record {
                  dex = b.dex;
                  fee = b.fee;
                  min_profit = b.min_profit;
                  decodes = b.decodes;
                  before = b.before;
                  balance_before = b.balance_before;
                  profit = b.profit;
                  enough = b.enough;
                  balance_after = b.balance_after;
                  premium = b.premium;
                  seized = b.seized;
                  took = b.took;
                  logs = b.logs;
                  factor = b.factor;
                  called = b.called;
                  until_called = b.until_called;
                  returned = b.returned;
                  callback = b.callback;
                  answers = b.answers;
                  unhealthy = b.unhealthy;
                  unlocked = b.unlocked;
                };
                left = (guarding.leaves t.inherited).0;
              }
