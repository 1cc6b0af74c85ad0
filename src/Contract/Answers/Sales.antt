-- ===== src/Contract/Answers/Sales.antt =====
-- src/AlphaRouting.sol: the sale of the seized collateral, by what the routers answer.
use alpharouting.Prelude.{
  ℕ, ◌≡◌, ◌≢◌, refl, ◌∙◌, inl, inr, true, false, Bool-cases, some, List, [], ◌∷◌, All, arith, ◌==◌,
}
use alpharouting.Text.{Text}
use alpharouting.Contract.{Immutables, State, done, pure}
use alpharouting.Contract.Evm.{Evm, ExactInput, ExactTokens}
use alpharouting.Contract.Swap.{
  dex_aerodrome, is_dex, router_for, last_amount, swap, swap_v3, swap_aerodrome,
}
use alpharouting.Contract.Strategy.{sell}
use alpharouting.Contract.Dexes.{routers, router_named, router_for-routed}
use alpharouting.Contract.Answers.{Ends, >>=-Ends, look-Ends}

module _ {G W : Type 0} (evm : Evm G W) (c : Immutables) where
  -- The table of routers has one for the name, and the name's hash is that of no other name there.
  pub record IsRouted (dex : Text) (router : ℕ) : Type 0 where
    pub free : All (λ e. evm.codec.keccak dex ≡ evm.codec.keccak e.0 → dex ≡ e.0) (routers c)
    pub named : router_named dex (routers c) ≡ some router
    pub there : router ≢ 0

  -- What the routers are asked.
  abbrev pub v3_order : ℕ → ℕ → ℕ → ℕ → ExactInput
  v3_order token_in token_out fee amount = record {
    token_in = token_in;
    token_out = token_out;
    fee = fee;
    recipient = evm.this;
    amount_in = amount;
    amount_out_minimum = 0;
    sqrt_price_limit = 0;
  }

  abbrev pub aerodrome_order : ℕ → ℕ → ℕ → ℕ → W → ExactTokens
  aerodrome_order token_in token_out amount factory w = record {
    amount_in = amount;
    amount_out_min = 0;
    from = token_in;
    to = token_out;
    stable = false;
    factory = factory;
    recipient = evm.this;
    deadline = evm.timestamp w;
  }

  -- A sale from `s` to `t` in which the router does what it is asked: none is needed, or by
  -- `exactInputSingle`, or by `swapExactTokensForTokens` on Aerodrome.
  pub data Sold (dex : Text) (token_in token_out fee amount : ℕ) (s : State G W)
      : State G W → Type 0 where
    unneeded : token_in ≡ token_out → Sold dex token_in token_out fee amount s s
    by_v3 :
        {s' t : State G W} (router n : ℕ)
        → token_in ≢ token_out
        → dex ≢ dex_aerodrome
        → IsRouted dex router
        → evm.force_approve token_in router amount s ≡ done (tt, s')
        → evm.exact_input_single router (v3_order token_in token_out fee amount) s' ≡ done (n, t)
        → Sold dex token_in token_out fee amount s t
    by_aerodrome :
        {s' t : State G W} (router factory n : ℕ) (ns : List ℕ)
        → token_in ≢ token_out
        → dex ≡ dex_aerodrome
        → IsRouted dex router
        → evm.force_approve token_in router amount s ≡ done (tt, s')
        → evm.default_factory router s'.world ≡ done factory
        → evm.swap_exact_tokens router
            (aerodrome_order token_in token_out amount factory s'.world)
            s'
          ≡ done (n ∷ ns, t)
        → Sold dex token_in token_out fee amount s t

  router_for-Ends :
      (dex : Text) (router : ℕ) (s : State G W)
      → IsRouted dex router
      → Ends (router_for evm c dex) s router s
  router_for-Ends dex router s r =
      let other : (router == 0) ≡ false = ground (arith, r.there) in
      record { ends = router_for-routed evm c dex s r.free ∙ rw (r.named, other) }

  last_amount-Ends :
      (n : ℕ) (ns : List ℕ) (t : State G W) → (m : ℕ) × Ends (last_amount (n ∷ ns)) t m t
  unfolding last_amount pure
  last_amount-Ends n [] t = (n, record { ends = refl })
  last_amount-Ends n (m ∷ ns) t =
      let (k, e) = last_amount-Ends m ns t in (k, record { ends = e.ends })

  swap_v3-Ends :
      (dex : Text) (token_in token_out fee amount router n : ℕ) (s s' t : State G W)
      → dex ≢ dex_aerodrome
      → IsRouted dex router
      → evm.force_approve token_in router amount s ≡ done (tt, s')
      → evm.exact_input_single router (v3_order token_in token_out fee amount) s' ≡ done (n, t)
      → Ends (swap evm c dex token_in token_out fee amount) s n t
  unfolding swap swap_v3 is_dex
  swap_v3-Ends dex token_in token_out fee amount router n s s' t d r a x =
      let other : (evm.codec.keccak dex == evm.codec.keccak dex_aerodrome) ≡ false =
        elim (Bool-cases (evm.codec.keccak dex == evm.codec.keccak dex_aerodrome)) [
          | inl p ↦ absurd (d (r.free.1.1.1.1.0 (ground (arith, p))))
          | inr p ↦ p
        ] in
      >>=-Ends _ _ (router_for-Ends dex router s r)
        (>>=-Ends _ _ (record { ends = a }) (record { ends = rw (other, swap_v3) x }))

  swap_aerodrome-Ends :
      (dex : Text) (token_in token_out fee amount router factory n : ℕ) (ns : List ℕ)
      (s s' t : State G W)
      → dex ≡ dex_aerodrome
      → IsRouted dex router
      → evm.force_approve token_in router amount s ≡ done (tt, s')
      → evm.default_factory router s'.world ≡ done factory
      → evm.swap_exact_tokens router (aerodrome_order token_in token_out amount factory s'.world) s'
        ≡ done (n ∷ ns, t)
      → (m : ℕ) × Ends (swap evm c dex token_in token_out fee amount) s m t
  unfolding swap swap_aerodrome is_dex
  swap_aerodrome-Ends dex token_in token_out fee amount router factory n ns s s' t d r a f x =
      let this_one : (evm.codec.keccak dex == evm.codec.keccak dex_aerodrome) ≡ true =
        rw d (ground arith) in
      let (m, l) = last_amount-Ends n ns t in
      let ended : Ends (swap_aerodrome evm c router token_in token_out amount) s' m t =
        >>=-Ends _ _ (look-Ends _ f)
          (>>=-Ends _ _ (look-Ends _ refl) (>>=-Ends _ _ (record { ends = x }) l)) in
      (
        m,
        >>=-Ends _ _ (router_for-Ends dex router s r)
            (>>=-Ends _ _ (record { ends = a }) (record { ends = rw this_one ended.ends })),
      )

  -- If the sale is not needed, or the router does as it is asked, then `sell` ends.
  pub sell-Ends :
      (dex : Text) (token_in token_out fee amount : ℕ) (s t : State G W)
      → Sold dex token_in token_out fee amount s t
      → Ends (sell evm c dex token_in token_out fee amount) s tt t
  unfolding sell pure
  sell-Ends dex token_in token_out fee amount s _ (unneeded e) =
      let same : (token_in == token_out) ≡ true = ground arith in record { ends = rw (sell, same) }
  sell-Ends dex token_in token_out fee amount s t (by_v3 {s'} router n e d r a x) =
      let same : (token_in == token_out) ≡ false = ground (arith, e) in
      let ended = swap_v3-Ends dex token_in token_out fee amount router n s s' t d r a x in
      let sold =
        >>=-Ends (swap evm c dex token_in token_out fee amount) (λ _. pure tt) ended
          (record { ends = refl }) in
      record { ends = rw (sell, same) sold.ends }
  sell-Ends dex token_in token_out fee amount s t
        (by_aerodrome {s'} router factory n ns e d r a f x) =
      let same : (token_in == token_out) ≡ false = ground (arith, e) in
      let (m, ended) =
        swap_aerodrome-Ends dex token_in token_out fee amount router factory n ns s s' t d r a f
          x in
      let sold =
        >>=-Ends (swap evm c dex token_in token_out fee amount) (λ _. pure tt) ended
          (record { ends = refl }) in
      record { ends = rw (sell, same) sold.ends }
