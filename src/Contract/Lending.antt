-- ===== src/Contract/Lending.antt =====
-- src/AlphaRouting.sol: what a flash loan does, and what a liquidation that does not revert has done.
use alpharouting.Prelude.{ℕ, ◌+◌, ◌-◌, ◌<◌, ◌≤◌, ◌≡◌, true, false, some, [], ◌∷◌, ◌++◌}
use alpharouting.Text.{Text}
use alpharouting.Contract.{
  Immutables, State, done, liquidation_executed, health_factor_liquidation_threshold, strat_liq,
}
use alpharouting.Contract.Evm.{Evm}
use alpharouting.Contract.Strategy.{execute_operation}
use alpharouting.Contract.Reentry.{Meanwhile}

module _ {G W : Type 0} (evm : Evm G W) (c : Immutables) where
  -- What Aave documents of a flash loan that does not revert: the callback returned true in between,
  -- and the asset, a standard token, was then pulled for the amount and the premium.
  abbrev pub IsLending : ℕ → Type 0
  IsLending asset =
      (amount : ℕ) (params : Text) (s t : State G W) (x : Unit {0})
      → evm.flash_loan_simple c.pool (execute_operation evm c) evm.this asset amount params 0 s
        ≡ done (x, t)
      → (premium : ℕ) × (a : State G W) × (b : State G W) × Meanwhile evm c s a
        × (execute_operation evm c c.pool asset amount premium evm.this params a ≡ done (true, b))
        × Meanwhile evm c b t
        × ((n : ℕ)
            → evm.balance_of asset evm.this b.world ≡ done n
            → evm.balance_of asset evm.this t.world ≡ done (n - (amount + premium)))

  -- The loan of a liquidation, from `s` to `u`: the params are decoded; the pool's callback for the
  -- loan ran, and the position was unhealthy in the state in which the pool called; the profit is at
  -- least the minimum, stays on the contract, and is in the event; and the lock is down again.
  pub record Borrowed (collateral debt borrower amount : ℕ) (swap_params : Text) (s u : State G W)
      : Type 0 where
    pub dex : Text
    pub fee : ℕ
    pub min_profit : ℕ
    pub decodes : evm.codec.decode_swap swap_params ≡ some (dex, fee, min_profit)
    pub before : ℕ
    pub balance_before : evm.balance_of debt evm.this s.world ≡ done before
    pub profit : ℕ
    pub enough : min_profit ≤ profit
    pub balance_after : evm.balance_of debt evm.this u.world ≡ done (before + profit)
    pub premium : ℕ
    pub seized : ℕ
    pub took : 0 < seized
    pub logs :
        u.logs
        ≡ s.logs ++ liquidation_executed debt collateral borrower amount seized premium profit ∷ []
    pub called : State G W
    pub until_called :
        Meanwhile evm c (record s { lock = 1; strategy = strat_liq; snapshot = before }) called
    pub returned : State G W
    pub callback :
        execute_operation evm c c.pool debt amount premium evm.this
          (evm.codec.encode_liq (record {
            collateral_asset = collateral;
            debt_asset = debt;
            borrower = borrower;
            debt_to_cover = amount;
            sell_dex = dex;
            sell_fee = fee;
            min_profit = min_profit;
          }))
          called
        ≡ done (true, returned)
    pub factor : ℕ
    pub answers : evm.get_health_factor c.pool borrower called.world ≡ done factor
    pub unhealthy : factor < health_factor_liquidation_threshold
    pub unlocked : u.lock ≡ 0

  -- The same for a whole call, which is the owner's, begins with the guard down, and leaves it down.
  pub record Liquidated (sender collateral debt borrower amount : ℕ) (swap_params : Text)
      (s u : State G W) : Type 0 where
    pub owns : sender ≡ evm.modifiers.owner s.inherited
    pub guard : G
    pub enters : evm.modifiers.before s.inherited ≡ some guard
    pub loan :
        Borrowed collateral debt borrower amount swap_params (record s { inherited = guard }) u
    pub left : evm.modifiers.entered u.inherited ≡ false
