-- ===== src/Contract/Mock/Laws.antt =====
-- test/mocks: the laws of the pool, the tokens and the router.
use alpharouting.Prelude.{
  ℕ, ◌+◌, ◌-◌, ◌*◌, ◌/◌, ◌≤◌, ◌≡◌, refl, sym, subst, ap, ◌∙◌, inl, inr, Bool, true, false, ◌⊎◌,
  Bool-cases, arith, leb,
}
use alpharouting.Contract.{Immutables, State, done, pure}
use alpharouting.Contract.Evm.{ExactInput, IsGuarding, IsDecoding}
use alpharouting.Contract.Ensures.{
  Ensures, >>=-Ensures, require-Ensures, pure-Ensures, gets-Ensures, done≢reverted, done_inj,
}
use alpharouting.Contract.Strategy.{execute_operation}
use alpharouting.Contract.Reentry.{Meanwhile}
use alpharouting.Contract.Steps.{IsOutside, IsStandard}
use alpharouting.Contract.Withdraw.{IsTransferring}
use alpharouting.Contract.Lending.{IsLending}
use alpharouting.Contract.Mock.{
  Guard, Ledger, this, pool, modifiers, mock, moved, move, flash_loan_simple, liquidation_call,
  exact_input_single,
}

pub modifiers-IsGuarding : IsGuarding modifiers
modifiers-IsGuarding = record {
  owns = λ sender g e. ground arith;
  admits_owner = λ g. ground arith;
  blocks = λ g e. ground arith;
  admits = λ g e. (record g { entered = true }, ground arith);
  enters = λ g g' e. ground arith;
  leaves = λ g. (refl, refl);
}

pub mock-IsDecoding : IsDecoding mock.codec
mock-IsDecoding p = refl

abbrev Entered : Type 0
Entered = State Guard Ledger

-- A transfer is of what is there, and changes the world only.
move-Ensures :
    (token from to n : ℕ) (s : Entered) {P : Unit {0} → Entered → Type 0}
    → (n ≤ s.world.balances token from → P tt (record s { world = moved s.world token from to n }))
    → Ensures (move token from to n) s P
unfolding move
move-Ensures token from to n s {P} h = record {
  holds = λ x t p. go (Bool-cases (leb n (s.world.balances token from))) x t p;
}
  where
    go :
        (leb n (s.world.balances token from) ≡ true) ⊎ (leb n (s.world.balances token from) ≡ false)
        → (x : Unit {0}) (t : Entered) → move token from to n s ≡ done (x, t)
        → P x t
    go (inl q) x t p = subst (λ o. P o.0 o.1) (done_inj (rw (q, move) at p)) (h (ground arith))
    go (inr q) x t p = absurd (done≢reverted (sym (rw (q, move) at p)))

module _ (c : Immutables) where
  liquidation_call-Ensures :
      (lender collateral debt user cover : ℕ) (b : Bool) (s : Entered)
      → Ensures
          (liquidation_call lender collateral debt user cover b)
          s
          (λ _ t. Meanwhile mock c s t)
  unfolding liquidation_call
  liquidation_call-Ensures lender collateral debt user cover b s = >>=-Ensures _ _ (
      move-Ensures _ _ _ _ s λ _.
        >>=-Ensures _ _
          (gets-Ensures _ (move-Ensures _ _ _ _ _ λ _. Meanwhile.elsewhere Meanwhile.stays _)))

  exact_input_single-Ensures :
      (dex : ℕ) (i : ExactInput) (s : Entered)
      → Ensures (exact_input_single dex i) s (λ _ t. Meanwhile mock c s t)
  unfolding exact_input_single
  exact_input_single-Ensures dex i s = >>=-Ensures _ _ (
      move-Ensures _ _ _ _ s λ _. >>=-Ensures _ _ (
        gets-Ensures _ (
          >>=-Ensures _ _ (
            require-Ensures _ _ λ _. >>=-Ensures _ _ (
              move-Ensures _ _ _ _ _
                λ _. pure-Ensures _ (Meanwhile.elsewhere Meanwhile.stays _))))))

  same : {A : Type 0} (a b : A) (s t : Entered) → pure a s ≡ done (b, t) → s ≡ t
  unfolding pure
  same a b s t p = ap (λ o. o.1) (done_inj p)

  pub mock-IsOutside : IsOutside mock c
  mock-IsOutside = record {
    force_approve =
        λ token spender n s x t p. subst (Meanwhile mock c s) (same tt x s t p) Meanwhile.stays;
    liquidation_call = λ l d b u n r s x t p. (liquidation_call-Ensures l d b u n r s).holds x t p;
    exact_input_single = λ dex i s n t p. (exact_input_single-Ensures dex i s).holds n t p;
    swap_exact_tokens = λ dex i s ns t p. absurd (done≢reverted (sym p));
    safe_transfer = λ token to n s x t p.
        (move-Ensures token this to n s {P = λ _ t. Meanwhile mock c s t}
            λ _. Meanwhile.elsewhere Meanwhile.stays _).holds
          x t p;
    send_eth = λ to n s b t p. subst (Meanwhile mock c s) (same true b s t p) Meanwhile.stays;
  }

  pub mock-IsStandard : (asset : ℕ) → IsStandard mock c asset
  mock-IsStandard asset token spender n s x t p =
      ap (λ u. mock.balance_of asset this u.world) (sym (same tt x s t p))

  pub mock-IsLending : c.pool ≡ pool → (asset : ℕ) → IsLending mock c asset
  unfolding flash_loan_simple
  mock-IsLending at asset amount params s t x p = ensured.holds x t p
    where
      Lent : Entered → Type 0
      Lent t =
          (premium : ℕ) × (a : Entered) × (b : Entered) × Meanwhile mock c s a
          × (execute_operation mock c c.pool asset amount premium this params a ≡ done (true, b))
          × Meanwhile mock c b t
          × ((n : ℕ)
              → mock.balance_of asset this b.world ≡ done n
              → mock.balance_of asset this t.world ≡ done (n - (amount + premium)))

      sent :
          (b : Entered) (n : ℕ)
          → mock.balance_of asset this b.world ≡ done n
          → mock.balance_of asset this
              (moved b.world asset this c.pool (amount + amount * 9 / 10000))
            ≡ done (n - (amount + amount * 9 / 10000))
      sent b n e = rw at (ground (arith, done_inj e))

      ensured :
          Ensures
            (flash_loan_simple c.pool (execute_operation mock c) this asset amount params 0)
            s
            (λ _ t. Lent t)
      ensured = >>=-Ensures _ _ (
          move-Ensures _ _ _ _ s λ _. >>=-Ensures _ _ (record {
            holds = λ returned b called. >>=-Ensures _ _ (
                require-Ensures _ _ λ true_back. move-Ensures _ _ _ _ b λ enough. (
                  amount * 9 / 10000,
                  _,
                  b,
                  Meanwhile.elsewhere Meanwhile.stays _,
                  called ∙ ap (λ r. done (r, b)) true_back,
                  Meanwhile.elsewhere Meanwhile.stays _,
                  λ n e. sent b n e,
                ));
          }))

-- A transfer to another account.
pub mock-IsTransferring : (token : ℕ) → IsTransferring mock token
mock-IsTransferring token to n s t x p other mine theirs e f =
    (move-Ensures token this to n s
        {P = λ _ t.
          (mock.balance_of token this t.world ≡ done (mine - n))
          × (mock.balance_of token to t.world ≡ done (theirs + n))}
        λ _. (
          ap done (ground (arith, other, done_inj e)),
          ap done (ground (arith, other, done_inj f)),
        )).holds
      x t p
