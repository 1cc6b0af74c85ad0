-- ===== src/Contract/Access.antt =====
-- src/AlphaRouting.sol: calls from outside between liquidations.
use alpharouting.Prelude.{ℕ, ◌≡◌, ◌⊎◌, refl, sym, ◌∙◌, subst, inl, inr, Bool, true, false, arith}
use alpharouting.Text.{Text}
use alpharouting.Contract.{Immutables, State, Action, Error, done, revert}
use alpharouting.Contract.Evm.{Evm, IsGuarding}
use alpharouting.Contract.Ensures.{
  Ensures, >>=-Ensures, pure-Ensures, revert-Ensures, gets-Ensures, decoded-Ensures, look-Ensures,
  require-Ensures, modify-Ensures, weaken-Ensures,
}
use alpharouting.Contract.Message.{Message}
use alpharouting.Contract.Guards.{only_owner-Ensures, non_reentrant-Ensures}
use alpharouting.Contract.Strategy.{execute_operation}
use alpharouting.Contract.Reentry.{Meanwhile, Keeps, Meanwhile-Keeps}
use alpharouting.Contract.Steps.{IsOutside, outside-Ensures}
use alpharouting.Contract.Entry.{
  only_owner, non_reentrant, borrow, execute_liquidation, withdraw_token, withdraw_eth,
  emergency_withdraw, dispatch,
}

-- The functions that end for the owner.
abbrev pub IsOwners : Message → Type 0
IsOwners Message.withdraw_eth = Unit
IsOwners (Message.withdraw_token token) = Unit
IsOwners (Message.emergency_withdraw token amount) = Unit
IsOwners (Message.execute_liquidation collateral debt borrower amount params) = Unit
IsOwners _ = ⊥

module _ {G W : Type 0} (evm : Evm G W) (c : Immutables) where
  -- Between two transactions: the lock is not set and no guarded function runs.
  pub record IsIdle (s : State G W) : Type 0 where
    pub unlocked : s.lock ≡ 0
    pub left : evm.modifiers.entered s.inherited ≡ false

  -- A call of the owner's that leaves the contract idle.
  abbrev pub Owned : ℕ → State G W → State G W → Type 0
  Owned sender s u = (sender ≡ evm.modifiers.owner s.inherited) × IsIdle u

  module _ (guarding : IsGuarding evm.modifiers) (outside : IsOutside evm c) where
    -- A guarded function of the owner's whose body leaves the lock down.
    owner_call-Owned :
        (sender : ℕ) (s : State G W) (body : Action G W (Unit {0}))
        → ((g : G)
            → evm.modifiers.entered g ≡ true
            → Ensures body (record s { inherited = g }) (λ _ u. u.lock ≡ 0))
        → Ensures (only_owner evm sender (non_reentrant evm body)) s (λ _ u. Owned sender s u)
    owner_call-Owned sender s body h = only_owner-Ensures evm _ _ λ own.
        non_reentrant-Ensures evm _ λ g e.
          weaken-Ensures _ _ (h g (guarding.enters s.inherited g e).0) λ _ u unlocked. (
            guarding.owns sender s.inherited own,
            record { unlocked = unlocked; left = (guarding.leaves u.inherited).0 },
          )

    -- A body that calls one other contract and then emits.
    guarded :
        (g : G) (s : State G W)
        → evm.modifiers.entered g ≡ true
        → Keeps evm c (record s { inherited = g }) (record s { inherited = g })
    guarded g s h = Meanwhile-Keeps evm c guarding h Meanwhile.stays

    withdraw_token-Owned :
        (sender token : ℕ) (s : State G W)
        → s.lock ≡ 0
        → Ensures (withdraw_token evm sender token) s (λ _ u. Owned sender s u)
    unfolding withdraw_token
    withdraw_token-Owned sender token s idle = owner_call-Owned sender s _ λ g h. >>=-Ensures _ _ (
        look-Ensures _ λ bal _. >>=-Ensures _ _ (
          gets-Ensures _ (
            >>=-Ensures _ _ (
              outside-Ensures evm c guarding outside _ (guarded g s h)
                (outside.safe_transfer _ _ _ _)
                λ _ t _ k. >>=-Ensures _ _ (gets-Ensures _ (modify-Ensures _ (k.lock ∙ idle)))))))

    emergency_withdraw-Owned :
        (sender token amount : ℕ) (s : State G W)
        → s.lock ≡ 0
        → Ensures (emergency_withdraw evm sender token amount) s (λ _ u. Owned sender s u)
    unfolding emergency_withdraw
    emergency_withdraw-Owned sender token amount s idle = owner_call-Owned sender s _ λ g h.
        >>=-Ensures _ _ (
          gets-Ensures _ (
            >>=-Ensures _ _ (
              outside-Ensures evm c guarding outside _ (guarded g s h)
                (outside.safe_transfer _ _ _ _)
                λ _ t _ k. >>=-Ensures _ _ (gets-Ensures _ (modify-Ensures _ (k.lock ∙ idle))))))

    withdraw_eth-Owned :
        (sender : ℕ) (s : State G W)
        → s.lock ≡ 0
        → Ensures (withdraw_eth evm sender) s (λ _ u. Owned sender s u)
    unfolding withdraw_eth
    withdraw_eth-Owned sender s idle = owner_call-Owned sender s _ λ g h. >>=-Ensures _ _ (
        look-Ensures _ λ bal _. >>=-Ensures _ _ (
          gets-Ensures _ (
            >>=-Ensures _ _ (
              outside-Ensures evm c guarding outside _ (guarded g s h) (outside.send_eth _ _ _)
                λ _ t _ k. >>=-Ensures _ _ (
                  require-Ensures _ _
                    λ _. >>=-Ensures _ _ (gets-Ensures _ (modify-Ensures _ (k.lock ∙ idle))))))))

    execute_liquidation-Owned :
        (sender collateral debt borrower amount : ℕ) (params : Text) (s : State G W)
        → Ensures
            (execute_liquidation evm c sender collateral debt borrower amount params)
            s
            (λ _ u. Owned sender s u)
    unfolding execute_liquidation borrow
    execute_liquidation-Owned sender collateral debt borrower amount params s =
        owner_call-Owned sender s _ λ g h. >>=-Ensures _ _ (
          require-Ensures _ _ λ _. >>=-Ensures _ _ (
            require-Ensures _ _ λ _. >>=-Ensures _ _ (
              decoded-Ensures _ λ _ _. >>=-Ensures _ _ (
                modify-Ensures _ (
                  >>=-Ensures _ _ (
                    modify-Ensures _ (
                      >>=-Ensures _ _ (
                        look-Ensures _ λ _ _. >>=-Ensures _ _ (
                          modify-Ensures _ (
                            >>=-Ensures _ _
                              (record { holds = λ _ _ _. modify-Ensures _ refl })))))))))))

    -- The callback needs the lock.
    execute_operation-unlocked :
        (sender asset amount premium initiator : ℕ) (params : Text) (s : State G W)
        {P : Bool → State G W → Type 0}
        → s.lock ≡ 0
        → Ensures (execute_operation evm c sender asset amount premium initiator params) s P
    unfolding execute_operation
    execute_operation-unlocked sender asset amount premium initiator params s idle =
        >>=-Ensures _ _ (
          require-Ensures _ _ λ _. >>=-Ensures _ _ (
            require-Ensures _ _ λ _. >>=-Ensures _ _ (
              gets-Ensures _ (
                >>=-Ensures _ _
                  (require-Ensures _ _ λ locked. absurd (ground (arith, locked, idle)))))))

    -- A function that is not implemented does not return.
    not_implemented :
        (sender : ℕ) (e : Error) (s : State G W) {P : Unit {0} → State G W → Type 0}
        → Ensures (only_owner evm sender (revert e)) s P
    not_implemented sender e s = only_owner-Ensures evm _ _ λ _. revert-Ensures _

    guarded_not_implemented :
        (e : Error) (s : State G W) {P : Unit {0} → State G W → Type 0}
        → Ensures (non_reentrant evm (revert e)) s P
    guarded_not_implemented e s = non_reentrant-Ensures evm _ λ _ _. revert-Ensures _

    -- A call is a payment that changes nothing here, or a liquidation or a withdrawal of the owner's.
    abbrev pub Admitted : ℕ → Message → State G W → State G W → Type 0
    Admitted sender m s u = ((m ≡ Message.receive_eth) × (u ≡ s)) ⊎ (IsOwners m × Owned sender s u)

    ours :
        (sender : ℕ) (m : Message) (s : State G W) {a : Action G W (Unit {0})}
        → IsOwners m
        → Ensures a s (λ _ u. Owned sender s u)
        → Ensures a s (λ _ u. Admitted sender m s u)
    ours sender m s i e = weaken-Ensures _ _ e λ _ _ o. inr (i, o)

    dispatch-Admitted :
        (sender : ℕ) (m : Message) (s : State G W)
        → s.lock ≡ 0
        → Ensures (dispatch evm c sender m) s (λ _ u. Admitted sender m s u)
    unfolding dispatch
    dispatch-Admitted sender Message.execute_arbitrage s idle = not_implemented sender _ s
    dispatch-Admitted sender Message.execute_rebase_arb s idle = not_implemented sender _ s
    dispatch-Admitted sender Message.execute_flash_swap_arb s idle = not_implemented sender _ s
    dispatch-Admitted sender Message.execute_balancer_arb s idle = not_implemented sender _ s
    dispatch-Admitted sender Message.execute_liquidation_combo s idle = not_implemented sender _ s
    dispatch-Admitted sender Message.execute_batch_liquidations s idle = not_implemented sender _ s
    dispatch-Admitted sender Message.uniswap_v3_flash_callback s idle = guarded_not_implemented _ s
    dispatch-Admitted sender Message.receive_flash_loan s idle = guarded_not_implemented _ s
    dispatch-Admitted sender Message.receive_eth s idle = pure-Ensures _ (inl (refl, refl))
    dispatch-Admitted sender Message.withdraw_eth s idle =
        ours sender _ s tt (withdraw_eth-Owned sender s idle)
    dispatch-Admitted sender (Message.withdraw_token token) s idle =
        ours sender _ s tt (withdraw_token-Owned sender token s idle)
    dispatch-Admitted sender (Message.emergency_withdraw token amount) s idle =
        ours sender _ s tt (emergency_withdraw-Owned sender token amount s idle)
    dispatch-Admitted sender (Message.execute_liquidation collateral debt borrower amount params) s
          idle =
        ours sender _ s tt
          (execute_liquidation-Owned sender collateral debt borrower amount params s)
    dispatch-Admitted sender (Message.execute_operation asset amount premium initiator params) s
          idle =
        >>=-Ensures _ _
          (execute_operation-unlocked sender asset amount premium initiator params s idle)

    -- While the contract is idle, a call of one of its own functions that does not revert is a
    -- payment that changes nothing here, or a liquidation or a withdrawal that the owner asked for
    -- and that leaves the contract idle. So a callback reverts, whoever sends it, also when the
    -- pool does and names this contract as the initiator. The modifiers do what OpenZeppelin
    -- documents, and other contracts act on this one only by calling it.
    pub call-Admitted :
        (sender : ℕ) (m : Message) (s u : State G W)
        → IsIdle s
        → dispatch evm c sender m s ≡ done (tt, u)
        → Admitted sender m s u
    call-Admitted sender m s u idle p = (dispatch-Admitted sender m s idle.unlocked).holds tt u p

    -- The states between transactions: other contracts act, the ownership changes, and calls come in.
    pub data Reached (s : State G W) : State G W → Type 0 where
      deployed : Reached s s
      elsewhere : {t : State G W} → Reached s t → (w : W) → Reached s (record t { world = w })
      owned :
          {t : State G W}
          → Reached s t
          → (g : G) → evm.modifiers.entered g ≡ evm.modifiers.entered t.inherited
          → Reached s (record t { inherited = g })
      called :
          {t u : State G W}
          → Reached s t
          → (sender : ℕ) (m : Message) → dispatch evm c sender m t ≡ done (tt, u)
          → Reached s u

    -- After any calls from any senders, whatever other contracts do between and during them, the
    -- contract is idle again if it was: no liquidation leaves the lock set or the guard up. The
    -- modifiers do what OpenZeppelin documents, and other contracts act on this one only by
    -- calling it.
    pub Reached-IsIdle : {s t : State G W} → IsIdle s → Reached s t → IsIdle t
    Reached-IsIdle idle deployed = idle
    Reached-IsIdle idle (elsewhere r w) =
        let i = Reached-IsIdle idle r in record { unlocked = i.unlocked; left = i.left }
    Reached-IsIdle idle (owned r g e) =
        let i = Reached-IsIdle idle r in record { unlocked = i.unlocked; left = e ∙ i.left }
    Reached-IsIdle idle (called {t} {u} r sender m p) =
        elim (call-Admitted sender m t u (Reached-IsIdle idle r) p) [
          | inl (_, same) ↦ subst IsIdle (sym same) (Reached-IsIdle idle r)
          | inr (_, (_, i)) ↦ i
        ]
