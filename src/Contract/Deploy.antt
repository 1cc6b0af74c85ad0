-- ===== src/Contract/Deploy.antt =====
-- script/Deploy.s.sol: the routers that each chain's deployment gets, next to the chains of
-- crates/config/src/chain_spec.rs.
use alpharouting.Prelude.{
  ℕ, ◌≡◌, ◌≢◌, refl, sym, ap, ◌∙◌, subst, inl, inr, false, not, Bool-cases, Option, none, some,
  arith, ◌==◌, if◌then◌else◌, Option-cases,
}
use alpharouting.Text.{Text}
use alpharouting.Config.{ChainSpec, lending_protocol_available}
use alpharouting.Config.Chains.{base_mainnet, monad}
use alpharouting.Config.Registry.{for_chain_id}
use alpharouting.Contract.{Routers, Immutables, State, Outcome, done, invalid_owner}
use alpharouting.Contract.Evm.{Evm}
use alpharouting.Contract.Ensures.{done≢reverted, Ensures, >>=-Ensures, require-Ensures, done_inj}
use alpharouting.Contract.Guards.{only_owner-Ensures, non_reentrant-Ensures}
use alpharouting.Contract.Entry.{construct, borrow, execute_liquidation}

abbrev pub chain_base_mainnet : ℕ
chain_base_mainnet = 8453

abbrev pub chain_base_sepolia : ℕ
chain_base_sepolia = 84532

abbrev pub chain_monad_mainnet : ℕ
chain_monad_mainnet = 41454

abbrev pub mainnet_routers : Routers
mainnet_routers = record {
  aave_provider = 0xe20fCBdBfFC4Dd138cE8b2E6FBb6CB49777ad64D;
  uniswap_v3_router = 0x2626664c2603336E57B271c5C0b26F421741e481;
  sushiswap_v3_router = 0xfb7Ef66c7e90876087B9b1d3eAaAf45EeF0FC53a;
  baseswap_v3_router = 0x1B8eea9315bE495187D873DA7773a874545D9D48;
  pancakeswap_v3_router = 0x678Aa4bF4E210cf2166753e054d5b7c31cc7fa86;
  aerodrome_router = 0xcF77a3Ba9A5CA399B7c97c74d54e5b1Beb874E43;
  balancer_vault = 0xBA12222222228d8Ba445958a75a0704d566BF2C8;
}

abbrev pub base_sepolia_routers : Routers
base_sepolia_routers = record {
  aave_provider = 0xd449FeD49d9C443688d6816fE6872F21402e41de;
  uniswap_v3_router = 0x94cC0AaC535CCDB3C01d6787D6413C739ae12bc4;
  sushiswap_v3_router = 0;
  baseswap_v3_router = 0;
  pancakeswap_v3_router = 0;
  aerodrome_router = 0;
  balancer_vault = 0;
}

abbrev pub monad_routers : Routers
monad_routers = record {
  aave_provider = 0;
  uniswap_v3_router = 0;
  sushiswap_v3_router = 0;
  baseswap_v3_router = 0;
  pancakeswap_v3_router = 0;
  aerodrome_router = 0;
  balancer_vault = 0;
}

-- The choice that `run` makes; `none` is its revert.
unfoldable pub routers_on : ℕ → Option Routers
routers_on cid =
    if cid == chain_base_mainnet
    then some mainnet_routers
    else (if cid == chain_base_sepolia
        then some base_sepolia_routers
        else (if cid == chain_monad_mainnet then some monad_routers else none))

-- An address that may be missing.
abbrev pub or_zero : Option ℕ → ℕ
or_zero none = 0
or_zero (some a) = a

-- The script and the registry of chains have the same Aave provider and the same Balancer vault.
abbrev pub Agrees : Routers → ChainSpec → Type 0
Agrees r spec =
    (r.aave_provider ≡ spec.aave_addresses_provider)
    × (r.balancer_vault ≡ or_zero spec.balancer_vault)
    × (lending_protocol_available spec ≡ not (r.aave_provider == 0))

some_routers : {a b : Routers} → ◌≡◌ {A = Option Routers} (some a) (some b) → a ≡ b
some_routers e = cc

some_spec : {a b : ChainSpec} → ◌≡◌ {A = Option ChainSpec} (some a) (some b) → a ≡ b
some_spec e = cc

no_routers : {r : Routers} → ◌≡◌ {A = Option Routers} none (some r) → ⊥
no_routers e = cc

no_spec : {c : ChainSpec} → ◌≡◌ {A = Option ChainSpec} none (some c) → ⊥
no_spec e = cc

-- From what both answer at a chain id.
agreeing :
    (cid n : ℕ) (r r' : Routers) (spec spec' : ChainSpec)
    → cid ≡ n
    → routers_on n ≡ some r'
    → for_chain_id n ≡ some spec'
    → routers_on cid ≡ some r
    → for_chain_id cid ≡ some spec
    → Agrees r' spec'
    → Agrees r spec
agreeing cid n r r' spec spec' at p q p' q' a =
    subst (λ x. Agrees x spec) (some_routers (sym p ∙ ap routers_on (sym at) ∙ p'))
      (subst (λ x. Agrees r' x) (some_spec (sym q ∙ ap for_chain_id (sym at) ∙ q')) a)

deployed-Agrees :
    (cid : ℕ) (r : Routers) (spec : ChainSpec)
    → routers_on cid ≡ some r
    → for_chain_id cid ≡ some spec
    → Agrees r spec
unfolding routers_on for_chain_id
deployed-Agrees cid r spec p q = elim (Bool-cases (cid == chain_base_mainnet)) [
  | inl a ↦
      agreeing cid chain_base_mainnet r mainnet_routers spec base_mainnet (ground (arith, a)) refl
        refl p q (refl, refl, refl)
  | inr a ↦ elim (Bool-cases (cid == chain_monad_mainnet)) [
    | inl b ↦
        agreeing cid chain_monad_mainnet r monad_routers spec monad (ground (arith, b)) refl refl p
          q (refl, refl, refl)
    | inr b ↦ elim (Bool-cases (cid == chain_base_sepolia)) [
      | inl c ↦
          let at : cid ≡ chain_base_sepolia = ground (arith, c) in
          absurd (no_spec (ap for_chain_id (sym at) ∙ q))
      | inr c ↦ absurd (no_routers (rw (a, c, b, routers_on) at p))
    ]
  ]
]

module _ {G W : Type 0} (evm : Evm G W) where
  -- `run`, with the account of a private key, the key of the environment or zero, and the sender, up to
  -- the contract; `none` for a chain that the script does not know.
  unfoldable pub deploy : (ℕ → ℕ) → ℕ → ℕ → ℕ → W → Option (Outcome (Immutables × G))
  unfolding routers_on
  deploy addr pk sender cid w =
      let owner = if not (pk == 0) then addr pk else sender in
      elim (routers_on cid) [ none ↦ none | some r ↦ some (construct evm owner r w) ]

  none≢some :
      (o : Outcome (Immutables × G)) → ◌≡◌ {A = Option (Outcome (Immutables × G))} none (some o) → ⊥
  none≢some o e = cc

  some_outcome :
      {a b : Outcome (Immutables × G)}
      → ◌≡◌ {A = Option (Outcome (Immutables × G))} (some a) (some b)
      → a ≡ b
  some_outcome e = cc

  -- What was constructed.
  deploy-chosen :
      (addr : ℕ → ℕ) (pk sender cid : ℕ) (w : W) (c : Immutables) (g : G)
      → deploy addr pk sender cid w ≡ some (done (c, g))
      → (r : Routers) × (routers_on cid ≡ some r) × ((o : ℕ) × (construct evm o r w ≡ done (c, g)))
  unfolding deploy
  deploy-chosen addr pk sender cid w c g e = elim (Option-cases (routers_on cid)) [
    | inl p ↦ absurd (none≢some _ (rw (p, deploy) at e))
    | inr (r, p) ↦ (r, p, (_, some_outcome (rw (p, deploy) at e)))
  ]

  -- Without an Aave provider the pool is the zero address.
  no_provider :
      (o : ℕ) (r : Routers) (w : W) (c : Immutables) (g : G)
      → r.aave_provider ≡ 0
      → construct evm o r w ≡ done (c, g)
      → c.pool ≡ 0
  unfolding construct
  no_provider o r w c g none_there e = elim (Option-cases (evm.modifiers.init o)) [
    | inl p ↦ absurd (done≢reverted {e = invalid_owner} (sym (rw (construct, p) at e)))
    | inr (h, p) ↦ sym (ap (λ d. d.0.pool) (done_inj (rw (construct, p, none_there) at e)))
  ]

  -- Without a pool no liquidation ends.
  no_pool :
      (c : Immutables) (sender collateral debt borrower amount : ℕ) (params : Text) (s : State G W)
      {P : Unit {0} → State G W → Type 0}
      → c.pool ≡ 0
      → Ensures (execute_liquidation evm c sender collateral debt borrower amount params) s P
  unfolding execute_liquidation borrow
  no_pool c sender collateral debt borrower amount params s e = only_owner-Ensures evm _ _ λ _.
      non_reentrant-Ensures evm _
        λ _ _. >>=-Ensures _ _ (require-Ensures _ _ λ there. absurd (ground (arith, e, there)))

  -- On a chain whose entry says that there is no lending protocol, the contract that the script
  -- deploys never completes a liquidation, whoever calls and in whatever state.
  pub no_lending-reverts :
      (addr : ℕ → ℕ) (pk deployer cid : ℕ) (spec : ChainSpec) (w : W) (c : Immutables) (g : G)
      → for_chain_id cid ≡ some spec
      → lending_protocol_available spec ≡ false
      → deploy addr pk deployer cid w ≡ some (done (c, g))
      → (sender collateral debt borrower amount : ℕ) (params : Text) (s u : State G W)
      → ◌≢◌ {A = Outcome (Unit {0} × State G W)}
          (execute_liquidation evm c sender collateral debt borrower amount params s)
          (done (tt, u))
  no_lending-reverts addr pk deployer cid spec w c g found unavailable deployed sender collateral
        debt borrower amount params s u p =
      let (r, chosen, (o, built)) = deploy-chosen addr pk deployer cid w c g deployed in
      let (_, _, lends) = deployed-Agrees cid r spec chosen found in
      let none_there : r.aave_provider ≡ 0 = ground (arith, lends, unavailable) in
      (no_pool c sender collateral debt borrower amount params s {P = λ _ _. ⊥}
          (no_provider o r w c g none_there built)).holds
        tt u p
