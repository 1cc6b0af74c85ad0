-- ===== src/Contract/Answers/Complete.antt =====
-- src/AlphaRouting.sol: a whole liquidation, by what the other contracts answer.
use alpharouting.Prelude.{ℕ, ◌≡◌, ◌≢◌, true, some, arith}
use alpharouting.Text.{Text}
use alpharouting.Contract.{Immutables, State, LiqParams, done, strat_liq}
use alpharouting.Contract.Evm.{Evm, IsGuarding, IsDecoding}
use alpharouting.Contract.Reentry.{Meanwhile, Meanwhile-Keeps}
use alpharouting.Contract.Strategy.{execute_operation}
use alpharouting.Contract.Entry.{only_owner, non_reentrant, borrow, execute_liquidation}
use alpharouting.Contract.Answers.{
  Ends, >>=-Ends, look-Ends, decoded-Ends, require-Ends, modify-Ends,
}
use alpharouting.Contract.Answers.Callback.{Obliges, execute_operation-Ends}

module _ {G W : Type 0} (evm : Evm G W) (c : Immutables) where
  -- The pool lends from `s`: it calls back while others oblige, and the loan ends if the callback
  -- returned true.
  pub record Lends (p : LiqParams) (s : State G W) : Type 0 where
    pub premium : ℕ
    pub called : State G W
    pub meanwhile : Meanwhile evm c s called
    pub obliges : Obliges evm c p.debt_asset p.debt_to_cover premium p called
    pub ends :
        (b : State G W)
        → execute_operation evm c c.pool p.debt_asset p.debt_to_cover premium evm.this
            (evm.codec.encode_liq p)
            called
          ≡ done (true, b)
        → (t : State G W) × (evm.flash_loan_simple c.pool
              (execute_operation evm c)
              evm.this
              p.debt_asset
              p.debt_to_cover
              (evm.codec.encode_liq p)
              0
              s
            ≡ done (tt, t))

  -- The state in which the loan is taken.
  abbrev pub begun : State G W → G → ℕ → State G W
  begun s g before = record s { inherited = g; lock = 1; strategy = strat_liq; snapshot = before }

  module _ (guarding : IsGuarding evm.modifiers) (decoding : IsDecoding evm.codec) where
    borrow-Ends :
        (p : LiqParams) (swap_params : Text) (s : State G W) (g : G) (before : ℕ)
        → evm.modifiers.entered g ≡ true
        → c.pool ≢ 0
        → p.borrower ≢ 0
        → evm.codec.decode_swap swap_params ≡ some (p.sell_dex, p.sell_fee, p.min_profit)
        → evm.balance_of p.debt_asset evm.this s.world ≡ done before
        → Lends p (begun s g before)
        → (u : State G W) × Ends
            (borrow evm c p.collateral_asset p.debt_asset p.borrower p.debt_to_cover swap_params)
            (record s { inherited = g })
            tt
            u
    unfolding borrow
    borrow-Ends p swap_params s g before h there someone e held lends =
        let k = Meanwhile-Keeps evm c guarding h lends.meanwhile in
        let called =
          execute_operation-Ends evm c p.debt_asset p.debt_to_cover lends.premium p lends.called
            lends.obliges (evm.codec.encode_liq p) (decoding p) k.lock k.strategy in
        let (t, lent) = lends.ends _ called.ends in
        (
          record t { lock = 0 },
          >>=-Ends _ _ (require-Ends _ _ (ground (arith, there))) (
              >>=-Ends _ _ (require-Ends _ _ (ground (arith, someone))) (
                >>=-Ends _ _ (decoded-Ends _ e) (
                  >>=-Ends _ _ (modify-Ends _) (
                    >>=-Ends _ _ (modify-Ends _) (
                      >>=-Ends _ _ (look-Ends _ held) (
                        >>=-Ends _ _ (modify-Ends _)
                          (>>=-Ends _ _ (record { ends = lent }) (modify-Ends _)))))))),
        )

    -- The owner's liquidation does not revert if the guard is down, there is a pool and a
    -- borrower, the params decode, the pool lends, and other contracts do what is asked of them:
    -- the position is unhealthy, collateral is paid out and sold through a router that is
    -- configured for the named exchange or is the debt asset itself, and the balance then covers
    -- the loan, its premium and the minimum profit. The modifiers and abi.decode do what is
    -- documented of them.
    pub execute_liquidation-completes :
        (p : LiqParams) (swap_params : Text) (s : State G W) (g : G) (before : ℕ)
        → evm.modifiers.before s.inherited ≡ some g
        → c.pool ≢ 0
        → p.borrower ≢ 0
        → evm.codec.decode_swap swap_params ≡ some (p.sell_dex, p.sell_fee, p.min_profit)
        → evm.balance_of p.debt_asset evm.this s.world ≡ done before
        → Lends p (begun s g before)
        → (u : State G W) × (execute_liquidation evm c
              (evm.modifiers.owner s.inherited)
              p.collateral_asset
              p.debt_asset
              p.borrower
              p.debt_to_cover
              swap_params
              s
            ≡ done (tt, u))
    unfolding execute_liquidation only_owner non_reentrant
    execute_liquidation-completes p swap_params s g before free there someone e held lends =
        let h = (guarding.enters s.inherited g free).0 in
        let (t, ended) = borrow-Ends p swap_params s g before h there someone e held lends in
        (
          record t { inherited = evm.modifiers.after t.inherited },
          rw (
            execute_liquidation,
            only_owner,
            guarding.admits_owner s.inherited,
            non_reentrant,
            free,
            ended.ends,
          ),
        )
