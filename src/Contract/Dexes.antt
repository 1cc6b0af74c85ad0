-- ===== src/Contract/Dexes.antt =====
-- src/AlphaRouting.sol: the choice of a router, as a table.
use alpharouting.Prelude.{
  ℕ, ◌≡◌, sym, ap, ◌∙◌, inl, inr, not, Bool-cases, Option, none, some, List, [], ◌∷◌, All, arith,
  ◌==◌, if◌then◌else◌,
}
use alpharouting.Text.{Text, text_eq, text_eq_iff}
use alpharouting.Contract.{
  Immutables, State, Outcome, done, reverted, unsupported_dex, dex_not_configured, ◌>>=◌, pure,
  revert, require,
}
use alpharouting.Contract.Evm.{Evm}
use alpharouting.Contract.Swap.{
  dex_uniswap, dex_sushiswap, dex_baseswap, dex_pancakeswap, dex_aerodrome, is_dex, router_for,
}

-- The names and their routers.
abbrev pub routers : Immutables → List (Text × ℕ)
routers c =
    (dex_uniswap, c.uniswap_v3_router)
    ∷ (dex_sushiswap, c.sushiswap_v3_router)
    ∷ (dex_baseswap, c.baseswap_v3_router)
    ∷ (dex_pancakeswap, c.pancakeswap_v3_router)
    ∷ (dex_aerodrome, c.aerodrome_router)
    ∷ []

unfoldable pub router_named : Text → List (Text × ℕ) → Option ℕ
router_named dex [] = none
router_named dex ((name, router) ∷ rest) =
    if text_eq dex name then some router else router_named dex rest

module _ {G W : Type 0} (evm : Evm G W) (c : Immutables) where
  -- No router, a router that is not configured, or the router.
  abbrev pub routed : Text → Option ℕ → State G W → Outcome (ℕ × State G W)
  routed dex none s = reverted (unsupported_dex dex)
  routed dex (some router) s =
      if router == 0 then reverted (dex_not_configured dex) else done (router, s)

  is_dex-text_eq :
      (dex name : Text)
      → (evm.codec.keccak dex ≡ evm.codec.keccak name → dex ≡ name)
      → is_dex evm c dex name ≡ text_eq dex name
  unfolding is_dex
  is_dex-text_eq dex name h = elim (Bool-cases (text_eq dex name)) [
    | inl p ↦
        let same : evm.codec.keccak dex ≡ evm.codec.keccak name =
          ap (λ t. evm.codec.keccak t) ((text_eq_iff dex name).0 p) in
        rw p (ground (arith, same))
    | inr p ↦ elim (Bool-cases (evm.codec.keccak dex == evm.codec.keccak name)) [
      | inl q ↦ absurd (ground (arith, p, (text_eq_iff dex name).1 (h (ground (arith, q)))))
      | inr q ↦ q ∙ sym p
    ]
  ]

  -- The test of the router that was found.
  checked :
      (dex : Text) (router : ℕ) (s : State G W)
      → (require (not (router == 0)) (dex_not_configured dex) >>= λ _. pure router) s
        ≡ routed dex (some router) s
  unfolding ◌>>=◌ pure require
  checked dex router s = elim (Bool-cases (router == 0)) [ inl p ↦ rw p | inr p ↦ rw p ]

  -- For a name whose hash is not that of another name in the table, the code finds the router
  -- that the table gives to the name, and reverts with DexNotConfigured where that is zero and
  -- with UnsupportedDex where the name is not in the table; the state is as it was.
  pub router_for-routed :
      (dex : Text) (s : State G W)
      → All (λ e. evm.codec.keccak dex ≡ evm.codec.keccak e.0 → dex ≡ e.0) (routers c)
      → router_for evm c dex s ≡ routed dex (router_named dex (routers c)) s
  unfolding router_for router_named ◌>>=◌ pure require revert
  router_for-routed dex s (u, (h, (b, (p, (a, _))))) =
      rw
        (
          router_for,
          is_dex-text_eq dex dex_uniswap u,
          is_dex-text_eq dex dex_sushiswap h,
          is_dex-text_eq dex dex_baseswap b,
          is_dex-text_eq dex dex_pancakeswap p,
          is_dex-text_eq dex dex_aerodrome a,
        )
        (elim (Bool-cases (text_eq dex dex_uniswap)) [
          | inl e ↦ rw e (checked dex c.uniswap_v3_router s)
          | inr e ↦ elim (Bool-cases (text_eq dex dex_sushiswap)) [
            | inl f ↦ rw (e, f) (checked dex c.sushiswap_v3_router s)
            | inr f ↦ elim (Bool-cases (text_eq dex dex_baseswap)) [
              | inl g ↦ rw (e, f, g) (checked dex c.baseswap_v3_router s)
              | inr g ↦ elim (Bool-cases (text_eq dex dex_pancakeswap)) [
                | inl h ↦ rw (e, f, g, h) (checked dex c.pancakeswap_v3_router s)
                | inr h ↦ elim (Bool-cases (text_eq dex dex_aerodrome)) [
                  | inl i ↦ rw (e, f, g, h, i) (checked dex c.aerodrome_router s)
                  | inr i ↦ rw (e, f, g, h, i)
                ]
              ]
            ]
          ]
        ])
