-- ===== src/Contract/Steps.antt =====
-- src/AlphaRouting.sol: what the steps of a liquidation leave as it was.
use alpharouting.Prelude.{
  ℕ, ◌+◌, ◌-◌, ◌<◌, ◌≤◌, ◌≡◌, refl, ap, ◌∙◌, Bool, not, arith, ◌==◌, List, [], ◌∷◌, ◌++◌,
}
use alpharouting.Text.{Text}
use alpharouting.Contract.{
  Immutables, State, Action, done, liquidation_executed, dex_not_configured, require, pure, ◌>>=◌,
  health_factor_liquidation_threshold,
}
use alpharouting.Contract.Evm.{Evm, IsGuarding, ExactInput, ExactTokens}
use alpharouting.Contract.Ensures.{
  Ensures, >>=-Ensures, pure-Ensures, revert-Ensures, gets-Ensures, look-Ensures, if-Ensures,
  require-Ensures, modify-Ensures, add-Ensures, sub-Ensures, weaken-Ensures,
}
use alpharouting.Contract.Swap.{
  dex_uniswap, dex_sushiswap, dex_baseswap, dex_pancakeswap, dex_aerodrome, is_dex, router_for,
  swap_aerodrome, swap_v3, swap, last_amount,
}
use alpharouting.Contract.Strategy.{settle, seize, sell}
use alpharouting.Contract.Reentry.{Meanwhile, Keeps, Keeps-then}

module _ {G W : Type 0} (evm : Evm G W) (c : Immutables) where
  -- A call of another contract that does not revert does to this one what calls from outside can.
  pub record IsOutside : Type 0 where
    pub force_approve :
        (token spender amount : ℕ) (s : State G W) (x : Unit {0}) (t : State G W)
        → evm.force_approve token spender amount s ≡ done (x, t)
        → Meanwhile evm c s t
    pub liquidation_call :
        (pool collateral debt borrower amount : ℕ) (b : Bool) (s : State G W) (x : Unit {0})
        (t : State G W)
        → evm.liquidation_call pool collateral debt borrower amount b s ≡ done (x, t)
        → Meanwhile evm c s t
    pub exact_input_single :
        (router : ℕ) (i : ExactInput) (s : State G W) (n : ℕ) (t : State G W)
        → evm.exact_input_single router i s ≡ done (n, t)
        → Meanwhile evm c s t
    pub swap_exact_tokens :
        (router : ℕ) (i : ExactTokens) (s : State G W) (ns : List ℕ) (t : State G W)
        → evm.swap_exact_tokens router i s ≡ done (ns, t)
        → Meanwhile evm c s t
    pub safe_transfer :
        (token to amount : ℕ) (s : State G W) (x : Unit {0}) (t : State G W)
        → evm.safe_transfer token to amount s ≡ done (x, t)
        → Meanwhile evm c s t
    pub send_eth :
        (to amount : ℕ) (s : State G W) (b : Bool) (t : State G W)
        → evm.send_eth to amount s ≡ done (b, t)
        → Meanwhile evm c s t

  -- The debt asset is a standard token: to approve moves none of it.
  abbrev pub IsStandard : ℕ → Type 0
  IsStandard asset =
      (token spender amount : ℕ) (s : State G W) (x : Unit {0}) (t : State G W)
      → evm.force_approve token spender amount s ≡ done (x, t)
      → evm.balance_of asset evm.this t.world ≡ evm.balance_of asset evm.this s.world

  module _ (guarding : IsGuarding evm.modifiers) (outside : IsOutside) where
    router_for-Ensures :
        (dex : Text) {t : State G W} {P : ℕ → State G W → Type 0}
        → ((r : ℕ) → P r t)
        → Ensures (router_for evm c dex) t P
    unfolding router_for
    router_for-Ensures dex {t} {P} h = >>=-Ensures _ _ (
        if-Ensures (is_dex evm c dex dex_uniswap) _ _ (λ _. pure-Ensures _ (checked _))
          (λ _.
            if-Ensures (is_dex evm c dex dex_sushiswap) _ _ (λ _. pure-Ensures _ (checked _))
              (λ _.
                if-Ensures (is_dex evm c dex dex_baseswap) _ _ (λ _. pure-Ensures _ (checked _))
                  (λ _.
                    if-Ensures (is_dex evm c dex dex_pancakeswap) _ _
                      (λ _. pure-Ensures _ (checked _))
                      (λ _.
                        if-Ensures (is_dex evm c dex dex_aerodrome) _ _
                          (λ _. pure-Ensures _ (checked _)) (λ _. revert-Ensures _))))))
      where
        checked :
            (r : ℕ) → Ensures (require (not (r == 0)) (dex_not_configured dex) >>= λ _. pure r) t P
        checked r = >>=-Ensures _ _ (require-Ensures _ _ λ _. pure-Ensures _ (h r))

    pub settle-Ensures :
        (debt amount premium collateral borrower cover min_profit seized : ℕ) (t : State G W)
        → Ensures
            (settle evm c debt amount premium collateral borrower cover min_profit seized)
            t
            (λ _ u.
              (profit : ℕ) × (evm.balance_of debt evm.this t.world
                ≡ done (t.snapshot + (amount + premium) + profit))
              × (min_profit ≤ profit)
              × (u ≡ record t {
                logs =
                    t.logs
                    ++ liquidation_executed debt collateral borrower cover seized premium profit
                      ∷ [];
              }))
    unfolding settle
    settle-Ensures debt amount premium collateral borrower cover min_profit seized t =
        >>=-Ensures _ _ (
          add-Ensures _ _ λ _. >>=-Ensures _ _ (
            gets-Ensures _ (
              >>=-Ensures _ _ (
                look-Ensures _ λ final e. >>=-Ensures _ _ (
                  add-Ensures _ _ λ _. >>=-Ensures _ _ (
                    require-Ensures _ _ λ q. >>=-Ensures _ _ (
                      sub-Ensures _ _ λ h. >>=-Ensures _ _ (
                        sub-Ensures _ _ λ k. >>=-Ensures _ _ (
                          require-Ensures _ _ λ m. modify-Ensures _ (
                            final - t.snapshot - (amount + premium),
                            e ∙ ap done (omega arith),
                            ground arith,
                            refl,
                          ))))))))))

    -- A call of another contract, after which the slots are as they were.
    pub outside-Ensures :
        {A : Type 0} {P : A → State G W → Type 0} {s t : State G W} (m : Action G W A)
        → Keeps evm c s t
        → ((x : A) (u : State G W) → m t ≡ done (x, u) → Meanwhile evm c t u)
        → ((x : A) (u : State G W) → m t ≡ done (x, u) → Keeps evm c s u → P x u)
        → Ensures m t P
    outside-Ensures m k out h = record {
      holds = λ x u p. h x u p (Keeps-then evm c guarding k (out x u p));
    }

    pub seize-Ensures :
        (debt collateral borrower cover : ℕ) (s t : State G W)
        → Keeps evm c s t
        → Ensures (seize evm c debt collateral borrower cover) t (λ seized u.
          Keeps evm c s u
          × (0 < seized)
          × ((factor : ℕ) × (evm.get_health_factor c.pool borrower t.world ≡ done factor)
              × (factor < health_factor_liquidation_threshold)))
    unfolding seize
    seize-Ensures debt collateral borrower cover s t k = >>=-Ensures _ _ (
        look-Ensures _ λ factor e. >>=-Ensures _ _ (
          require-Ensures _ _ λ q. >>=-Ensures _ _ (
            look-Ensures _ λ before _. >>=-Ensures _ _ (
              outside-Ensures _ k (outside.force_approve _ _ _ t) λ x u p k'. >>=-Ensures _ _ (
                outside-Ensures _ k' (outside.liquidation_call _ _ _ _ _ _ u) λ x' u' p' k''.
                  >>=-Ensures _ _ (
                    look-Ensures _ λ after _. >>=-Ensures _ _ (
                      sub-Ensures _ _ λ _. >>=-Ensures _ _ (
                        require-Ensures _ _
                          λ z. pure-Ensures _ (k'', ground arith, (factor, e, ground arith))))))))))

    last_amount-Ensures :
        (amounts : List ℕ) {t : State G W} {P : ℕ → State G W → Type 0}
        → ((n : ℕ) → P n t)
        → Ensures (last_amount amounts) t P
    unfolding last_amount
    last_amount-Ensures [] h = revert-Ensures _
    last_amount-Ensures (x ∷ []) h = pure-Ensures _ (h x)
    last_amount-Ensures (x ∷ y ∷ xs) h = last_amount-Ensures (y ∷ xs) h

    swap-Ensures :
        (dex : Text) (token_in token_out fee amount_in : ℕ) (s t : State G W)
        → Keeps evm c s t
        → Ensures (swap evm c dex token_in token_out fee amount_in) t (λ _ u. Keeps evm c s u)
    unfolding swap swap_aerodrome swap_v3
    swap-Ensures dex token_in token_out fee amount_in s t k = >>=-Ensures _ _ (
        router_for-Ensures dex λ router. >>=-Ensures _ _ (
          outside-Ensures _ k (outside.force_approve _ _ _ t) λ x u p k'.
            if-Ensures (is_dex evm c dex dex_aerodrome) _ _
              (λ _. >>=-Ensures _ _ (
                look-Ensures _ λ factory _. >>=-Ensures _ _ (
                  look-Ensures _ λ deadline _. >>=-Ensures _ _ (
                    outside-Ensures _ k' (outside.swap_exact_tokens _ _ u)
                      λ amounts u' p' k''. last_amount-Ensures amounts λ _. k''))))
              (λ _. outside-Ensures _ k' (outside.exact_input_single _ _ u) λ _ _ _ k''. k'')))

    pub sell-Ensures :
        (dex : Text) (collateral debt fee seized : ℕ) (s t : State G W)
        → Keeps evm c s t
        → Ensures (sell evm c dex collateral debt fee seized) t (λ _ u. Keeps evm c s u)
    unfolding sell
    sell-Ensures dex collateral debt fee seized s t k =
        if-Ensures (collateral == debt) _ _ (λ _. pure-Ensures _ k)
          (λ _. >>=-Ensures _ _ (
            weaken-Ensures _ _ (swap-Ensures dex collateral debt fee seized s t k)
              λ _ u k'. pure-Ensures _ k'))
