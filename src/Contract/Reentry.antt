-- ===== src/Contract/Reentry.antt =====
-- src/AlphaRouting.sol: what other contracts can do to it while it runs.
use alpharouting.Prelude.{ℕ, ◌≡◌, refl, sym, ◌∙◌, subst, inl, inr, true, Bool-cases, arith, ◌==◌}
use alpharouting.Text.{Text}
use alpharouting.Contract.{
  Immutables, State, Error, pure, require, ◌>>=◌, revert, done, reverted, unauthorized_callback,
  initiator_mismatch,
}
use alpharouting.Contract.Evm.{Evm, IsGuarding}
use alpharouting.Contract.Ensures.{done≢reverted, >>=-reverted}
use alpharouting.Contract.Message.{Message}
use alpharouting.Contract.Strategy.{execute_operation}
use alpharouting.Contract.Entry.{
  only_owner, non_reentrant, dispatch, withdraw_token, withdraw_eth, emergency_withdraw,
  execute_liquidation,
}

module _ {G W : Type 0} (evm : Evm G W) (c : Immutables) where
  -- The pool names as the initiator who called it. So a callback that it makes while this contract
  -- waits for something else than its own loan has another initiator.
  abbrev pub IsForeign : ℕ → Message → Type 0
  IsForeign sender (Message.execute_operation asset amount premium initiator params) =
      ¬ ((sender ≡ c.pool) × (initiator ≡ evm.this))
  IsForeign sender _ = Unit

  -- While another contract runs: the world changes, the ownership may, and any calls come back into
  -- this contract, from any sender, of which those that revert change nothing.
  pub data Meanwhile (s : State G W) : State G W → Type 0 where
    stays : Meanwhile s s
    elsewhere : {t : State G W} → Meanwhile s t → (w : W) → Meanwhile s (record t { world = w })
    owned :
        {t : State G W}
        → Meanwhile s t
        → (g : G) → evm.modifiers.entered g ≡ evm.modifiers.entered t.inherited
        → Meanwhile s (record t { inherited = g })
    comes_back :
        {t u : State G W}
        → Meanwhile s t
        → (sender : ℕ) (m : Message) → IsForeign sender m
        → dispatch evm c sender m t ≡ done (tt, u)
        → Meanwhile s u

  -- The contract's own slots and events are as they were, and the guard is up.
  pub record Keeps (s t : State G W) : Type 0 where
    pub lock : t.lock ≡ s.lock
    pub strategy : t.strategy ≡ s.strategy
    pub snapshot : t.snapshot ≡ s.snapshot
    pub logs : t.logs ≡ s.logs
    pub entered : evm.modifiers.entered t.inherited ≡ true

  -- A callback that the pool does not make, or not for a loan of this contract's, reverts.
  foreign_callback :
      (sender asset amount premium initiator : ℕ) (params : Text) (t : State G W)
      → ¬ ((sender ≡ c.pool) × (initiator ≡ evm.this))
      → (e : Error) × (execute_operation evm c sender asset amount premium initiator params t
          ≡ reverted e)
  unfolding execute_operation ◌>>=◌ require
  foreign_callback sender asset amount premium initiator params t n =
      elim (Bool-cases (sender == c.pool)) [
        | inr p ↦ (unauthorized_callback, rw (p, execute_operation))
        | inl p ↦ elim (Bool-cases (initiator == evm.this)) [
          | inr q ↦ (initiator_mismatch, rw (p, execute_operation, q))
          | inl q ↦ absurd (n (ground arith, ground arith))
        ]
      ]

  module _ (guarding : IsGuarding evm.modifiers) where
    -- While the guard is up, a call from outside reverts or pays in.
    dispatch_entered :
        (sender : ℕ) (m : Message) (t u : State G W)
        → evm.modifiers.entered t.inherited ≡ true
        → IsForeign sender m
        → dispatch evm c sender m t ≡ done (tt, u)
        → t ≡ u
    unfolding dispatch revert pure only_owner non_reentrant withdraw_token withdraw_eth
        emergency_withdraw execute_liquidation
    dispatch_entered sender Message.execute_arbitrage t u h f q =
        ground (arith, guarding.blocks t.inherited h)
    dispatch_entered sender Message.execute_rebase_arb t u h f q =
        ground (arith, guarding.blocks t.inherited h)
    dispatch_entered sender Message.execute_flash_swap_arb t u h f q =
        ground (arith, guarding.blocks t.inherited h)
    dispatch_entered sender Message.execute_balancer_arb t u h f q =
        ground (arith, guarding.blocks t.inherited h)
    dispatch_entered sender Message.execute_liquidation_combo t u h f q =
        ground (arith, guarding.blocks t.inherited h)
    dispatch_entered sender Message.execute_batch_liquidations t u h f q =
        ground (arith, guarding.blocks t.inherited h)
    dispatch_entered sender Message.uniswap_v3_flash_callback t u h f q =
        ground (arith, guarding.blocks t.inherited h)
    dispatch_entered sender Message.receive_flash_loan t u h f q =
        ground (arith, guarding.blocks t.inherited h)
    dispatch_entered sender Message.receive_eth t u h f q = cc
    dispatch_entered sender Message.withdraw_eth t u h f q =
        ground (arith, guarding.blocks t.inherited h)
    dispatch_entered sender (Message.withdraw_token token) t u h f q =
        ground (arith, guarding.blocks t.inherited h)
    dispatch_entered sender (Message.emergency_withdraw token amount) t u h f q =
        ground (arith, guarding.blocks t.inherited h)
    dispatch_entered sender (Message.execute_liquidation a b d n p) t u h f q =
        ground (arith, guarding.blocks t.inherited h)
    dispatch_entered sender (Message.execute_operation a n x i p) t u h f q =
        let (e, r) = foreign_callback sender a n x i p t f in
        absurd (
          done≢reverted {e = e}
            (sym q ∙ >>=-reverted (execute_operation evm c sender a n x i p) (λ _. pure tt) t e r))

    -- Whatever other contracts do while the guard is up, in any number of calls back into this
    -- one and from any senders, the lock, the strategy, the snapshot and the events stay as they
    -- are, and the guard stays up. The modifiers do what OpenZeppelin documents, and none of the
    -- calls is the pool's callback for a loan that this contract took.
    pub Meanwhile-Keeps :
        {s t : State G W} → evm.modifiers.entered s.inherited ≡ true → Meanwhile s t → Keeps s t
    Meanwhile-Keeps h stays = record {
      lock = refl;
      strategy = refl;
      snapshot = refl;
      logs = refl;
      entered = h;
    }
    Meanwhile-Keeps h (elsewhere r w) =
        let k = Meanwhile-Keeps h r in
        record {
          lock = k.lock;
          strategy = k.strategy;
          snapshot = k.snapshot;
          logs = k.logs;
          entered = k.entered;
        }
    Meanwhile-Keeps h (owned r g e) =
        let k = Meanwhile-Keeps h r in
        record {
          lock = k.lock;
          strategy = k.strategy;
          snapshot = k.snapshot;
          logs = k.logs;
          entered = e ∙ k.entered;
        }
    Meanwhile-Keeps {s} h (comes_back {t} {u} r sender m f q) =
        let k = Meanwhile-Keeps h r in
        subst (Keeps s) (dispatch_entered sender m t u k.entered f q) k

    pub Keeps-then : {s t u : State G W} → Keeps s t → Meanwhile t u → Keeps s u
    Keeps-then k r =
        let k' = Meanwhile-Keeps k.entered r in
        record {
          lock = k'.lock ∙ k.lock;
          strategy = k'.strategy ∙ k.strategy;
          snapshot = k'.snapshot ∙ k.snapshot;
          logs = k'.logs ∙ k.logs;
          entered = k'.entered;
        }
