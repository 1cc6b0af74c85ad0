-- ===== src/Contract/Guards.antt =====
-- src/AlphaRouting.sol: what the modifiers do to a body.
use alpharouting.Prelude.{
  ℕ, ◌≡◌, refl, sym, subst, ◌⊎◌, inl, inr, true, false, Bool-cases, Option, none, some,
}
use alpharouting.Contract.{State, Action, Outcome, done, reverted, reentrant_call}
use alpharouting.Contract.Evm.{Evm}
use alpharouting.Contract.Ensures.{Ensures, done≢reverted, done_inj}
use alpharouting.Contract.Entry.{only_owner, non_reentrant}

module _ {G W : Type 0} (evm : Evm G W) {s : State G W} {P : Unit {0} → State G W → Type 0} where
  pub only_owner-Ensures :
      (sender : ℕ) (body : Action G W (Unit {0}))
      → (evm.modifiers.is_owner sender s.inherited ≡ true → Ensures body s P)
      → Ensures (only_owner evm sender body) s P
  unfolding only_owner
  only_owner-Ensures sender body h = record {
    holds = λ x u p. go (Bool-cases (evm.modifiers.is_owner sender s.inherited)) x u p;
  }
    where
      go :
          (evm.modifiers.is_owner sender s.inherited ≡ true)
            ⊎ (evm.modifiers.is_owner sender s.inherited ≡ false)
          → (x : Unit {0}) (u : State G W) → only_owner evm sender body s ≡ done (x, u)
          → P x u
      go (inl q) x u p = (h q).holds x u (rw (q, only_owner) at p)
      go (inr q) x u p = absurd (done≢reverted (sym (rw (q, only_owner) at p)))

  pub non_reentrant-Ensures :
      (body : Action G W (Unit {0}))
      → ((g : G)
          → evm.modifiers.before s.inherited ≡ some g
          → Ensures body
              (record s { inherited = g })
              (λ _ t. P tt (record t { inherited = evm.modifiers.after t.inherited })))
      → Ensures (non_reentrant evm body) s P
  unfolding non_reentrant
  non_reentrant-Ensures body h = record {
    holds = λ x u p. go (evm.modifiers.before s.inherited) refl x u p;
  }
    where
      ends :
          (g : G)
          → evm.modifiers.before s.inherited ≡ some g
          → (o : Outcome (Unit {0} × State G W)) → body (record s { inherited = g }) ≡ o
          → (x : Unit {0}) (u : State G W) → non_reentrant evm body s ≡ done (x, u)
          → P x u
      ends g q (done (y, t)) r x u p =
          subst (λ v. P v.0 v.1) (done_inj (rw (q, non_reentrant, r) at p)) ((h g q).holds y t r)
      ends g q (reverted e) r x u p =
          absurd (done≢reverted {e = e} (sym (rw (q, non_reentrant, r) at p)))

      go :
          (o : Option G)
          → evm.modifiers.before s.inherited ≡ o
          → (x : Unit {0}) (u : State G W) → non_reentrant evm body s ≡ done (x, u)
          → P x u
      go none q x u p =
          absurd (done≢reverted {e = reentrant_call} (sym (rw (q, non_reentrant) at p)))
      go (some g) q x u p = ends g q (body (record s { inherited = g })) refl x u p
