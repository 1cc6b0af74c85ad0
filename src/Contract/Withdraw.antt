-- ===== src/Contract/Withdraw.antt =====
-- src/AlphaRouting.sol: `withdrawToken`.
use alpharouting.Prelude.{ℕ, ◌+◌, ◌-◌, ◌≡◌, ◌≢◌, sym, ap, ◌∙◌, arith, [], ◌∷◌, ◌++◌}
use alpharouting.Contract.{Immutables, State, done, withdrawn}
use alpharouting.Contract.Evm.{Evm, IsGuarding}
use alpharouting.Contract.Ensures.{Ensures, >>=-Ensures, gets-Ensures, look-Ensures, modify-Ensures}
use alpharouting.Contract.Guards.{only_owner-Ensures, non_reentrant-Ensures}
use alpharouting.Contract.Reentry.{Meanwhile, Meanwhile-Keeps}
use alpharouting.Contract.Steps.{IsOutside, outside-Ensures}
use alpharouting.Contract.Entry.{withdraw_token}

module _ {G W : Type 0} (evm : Evm G W) where
  -- What ERC-20 says of a transfer to another account that does not revert.
  abbrev pub IsTransferring : ℕ → Type 0
  IsTransferring token =
      (to amount : ℕ) (s t : State G W) (x : Unit {0})
      → evm.safe_transfer token to amount s ≡ done (x, t)
      → to ≢ evm.this
      → (mine theirs : ℕ) → evm.balance_of token evm.this s.world ≡ done mine
      → evm.balance_of token to s.world ≡ done theirs
      → (evm.balance_of token evm.this t.world ≡ done (mine - amount))
        × (evm.balance_of token to t.world ≡ done (theirs + amount))

  -- The sender is the owner, who has what the contract had; nothing is left; one event says so.
  pub record Withdrawn (sender token theirs : ℕ) (s u : State G W) : Type 0 where
    pub owns : sender ≡ evm.modifiers.owner s.inherited
    pub bal : ℕ
    pub balance_before : evm.balance_of token evm.this s.world ≡ done bal
    pub emptied : evm.balance_of token evm.this u.world ≡ done 0
    pub paid : evm.balance_of token sender u.world ≡ done (theirs + bal)
    pub logs : u.logs ≡ s.logs ++ withdrawn token bal (evm.modifiers.owner u.inherited) ∷ []

  module _ (c : Immutables) (guarding : IsGuarding evm.modifiers) (outside : IsOutside evm c) where
    -- From the transfer to the end.
    finish :
        (sender token theirs bal : ℕ) (s t : State G W) (g : G) (x : Unit {0})
        → IsTransferring token
        → evm.modifiers.owner s.inherited ≢ evm.this
        → sender ≡ evm.modifiers.owner s.inherited
        → evm.modifiers.owner g ≡ evm.modifiers.owner s.inherited
        → evm.balance_of token (evm.modifiers.owner s.inherited) s.world ≡ done theirs
        → evm.balance_of token evm.this s.world ≡ done bal
        → evm.safe_transfer token (evm.modifiers.owner g) bal (record s { inherited = g })
          ≡ done (x, t)
        → t.logs ≡ s.logs
        → Withdrawn sender token theirs s (record t {
          inherited = evm.modifiers.after t.inherited;
          logs = t.logs ++ withdrawn token bal (evm.modifiers.owner t.inherited) ∷ [];
        })
    finish sender token theirs bal s t g x transferring other own same held e q kept =
        let (mine, paid) =
          transferring (evm.modifiers.owner g) bal (record s { inherited = g }) t x q
            (λ p. other (sym same ∙ p)) bal theirs e
            (ap (λ a. evm.balance_of token a s.world) same ∙ held) in
        record {
          owns = own;
          bal = bal;
          balance_before = e;
          emptied = mine ∙ ap done (omega arith);
          paid = ap (λ a. evm.balance_of token a t.world) (own ∙ sym same) ∙ paid;
          logs =
              ap (λ events. events ++ withdrawn token bal (evm.modifiers.owner t.inherited) ∷ [])
                kept
              ∙ ap (λ a. s.logs ++ withdrawn token bal a ∷ [])
                  (sym (guarding.leaves t.inherited).1);
        }

    -- If withdrawToken does not revert, of a token that transfers as ERC-20 says, and the
    -- contract does not own itself: the caller is the owner, the contract's whole balance has
    -- gone to it, and the one event that was added has the amount and names who is the owner at
    -- the end. The modifiers do what OpenZeppelin documents, and other contracts act on this one
    -- only by calling it.
    pub withdraw_token-Withdrawn :
        (sender token theirs : ℕ) (s u : State G W)
        → IsTransferring token
        → evm.modifiers.owner s.inherited ≢ evm.this
        → evm.balance_of token (evm.modifiers.owner s.inherited) s.world ≡ done theirs
        → withdraw_token evm sender token s ≡ done (tt, u)
        → Withdrawn sender token theirs s u
    unfolding withdraw_token
    withdraw_token-Withdrawn sender token theirs s u transferring other held p =
        ensured.holds tt u p
      where
        ensured :
            Ensures (withdraw_token evm sender token) s (λ _ u. Withdrawn sender token theirs s u)
        ensured = only_owner-Ensures evm _ _ λ own. non_reentrant-Ensures evm _ λ g entering.
            let (h, same) = guarding.enters s.inherited g entering in
            >>=-Ensures _ _ (
              look-Ensures _ λ bal e. >>=-Ensures _ _ (
                gets-Ensures _ (
                  >>=-Ensures _ _ (
                    outside-Ensures evm c guarding outside _
                      (Meanwhile-Keeps evm c guarding h Meanwhile.stays)
                      (outside.safe_transfer _ _ _ _)
                      λ x t q k. >>=-Ensures _ _ (
                        gets-Ensures _ (
                          modify-Ensures _ (
                            finish sender token theirs bal s t g x transferring other
                              (guarding.owns sender s.inherited own) same held e q k.logs)))))))
