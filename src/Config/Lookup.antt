-- ===== src/Config/Lookup.antt =====
-- crates/config/src/chain_spec.rs: the lookup agrees with the list of chains.
use alpharouting.Prelude.{
  In, here, there, ℕ, ◌≡◌, ◌≢◌, ◌↔◌, refl, sym, ap, ◌∙◌, subst, inl, inr, true, Bool-cases,
  Option-cases, Option, none, some, List, ◌∷◌, arith, ◌==◌, if◌then◌else◌,
}
use alpharouting.Config.{ChainSpec, lending_protocol_available}
use alpharouting.Config.Registry.{
  Start, for_chain_id, all_chains, connects, unsupported, no_lending, start_chain,
}

some_eq : {a b : ChainSpec} → ◌≡◌ {A = Option ChainSpec} (some a) (some b) → a ≡ b
some_eq e = cc

none≢some : (c : ChainSpec) → ◌≡◌ {A = Option ChainSpec} none (some c) → ⊥
none≢some c e = cc

-- One arm of the `match`.
arm :
    (id n : ℕ) (c : ChainSpec) (cs : List ChainSpec) (rest : Option ChainSpec) (spec : ChainSpec)
    → c.chain_id ≡ n
    → (rest ≡ some spec → In spec cs × (spec.chain_id ≡ id))
    → (if id == n then some c else rest) ≡ some spec
    → In spec (c ∷ cs) × (spec.chain_id ≡ id)
arm id n c cs rest spec e later found = elim (Bool-cases (id == n)) [
  | inl p ↦
      let same : c ≡ spec = some_eq cc in
      let matched : n ≡ id = ground (arith, p) in
      subst (λ x. In x (c ∷ cs) × (x.chain_id ≡ id)) same (here, e ∙ matched)
  | inr p ↦ let onward : rest ≡ some spec = cc in let (l, m) = later onward in (there l, m)
]

found :
    (id : ℕ) (spec : ChainSpec)
    → for_chain_id id ≡ some spec
    → In spec all_chains × (spec.chain_id ≡ id)
unfolding for_chain_id
found id spec = arm id 8453 _ _ _ spec refl (
    arm id 1 _ _ _ spec refl (
      arm id 42161 _ _ _ spec refl (
        arm id 10 _ _ _ spec refl (
          arm id 137 _ _ _ spec refl (
            arm id 56 _ _ _ spec refl
              (arm id 41454 _ _ _ spec refl (λ e. absurd (none≢some spec e))))))))

listed : (spec : ChainSpec) → In spec all_chains → for_chain_id spec.chain_id ≡ some spec
unfolding for_chain_id
listed _ here = refl
listed _ (there here) = refl
listed _ (there (there here)) = refl
listed _ (there (there (there here))) = refl
listed _ (there (there (there (there here)))) = refl
listed _ (there (there (there (there (there here))))) = refl
listed _ (there (there (there (there (there (there here)))))) = refl
listed _ (there (there (there (there (there (there (there l))))))) = elim l [ ]

-- The lookup of a chain id finds a chain exactly if it is one of the list and has that id.
for_chain_id_iff :
    (chain_id : ℕ) (spec : ChainSpec)
    → (for_chain_id chain_id ≡ some spec) ↔ (In spec all_chains × (spec.chain_id ≡ chain_id))
for_chain_id_iff chain_id spec =
    ((λ e. found chain_id spec e), λ (l, e). ap for_chain_id (sym e) ∙ listed spec l)

unsupported≢connects : (id : ℕ) (c : ChainSpec) → unsupported id ≡ connects c → ⊥
unsupported≢connects id c e = cc

no_lending≢connects : (c d : ChainSpec) → no_lending c ≡ connects d → ⊥
no_lending≢connects c d e = cc

connects_eq : {a b : ChainSpec} → connects a ≡ connects b → a ≡ b
connects_eq e = cc

-- The liquidator goes on to connect exactly on the listed chains with an Aave pool, whatever their
-- status.
pub start_chain_iff :
    (chain_id : ℕ) (spec : ChainSpec)
    → (start_chain chain_id ≡ connects spec)
      ↔ (In spec all_chains × (spec.chain_id ≡ chain_id) × (spec.aave_pool ≢ 0))
unfolding start_chain
start_chain_iff chain_id spec = ((λ e. forth e), λ (l, i, a). back l i a)
  where
    back :
        In spec all_chains
        → spec.chain_id ≡ chain_id
        → spec.aave_pool ≢ 0
        → start_chain chain_id ≡ connects spec
    back l i a =
        let (_, finds) = for_chain_id_iff chain_id spec in
        let pool : lending_protocol_available spec ≡ true = ground (arith, a) in
        rw (finds (l, i), start_chain, pool)

    forth :
        start_chain chain_id ≡ connects spec
        → In spec all_chains × (spec.chain_id ≡ chain_id) × (spec.aave_pool ≢ 0)
    forth e = elim (Option-cases (for_chain_id chain_id)) [
      | inl p ↦
          let stops : start_chain chain_id ≡ unsupported chain_id = rw (p, start_chain) in
          absurd (unsupported≢connects chain_id spec (sym stops ∙ e))
      | inr (c, p) ↦ elim (Bool-cases (lending_protocol_available c)) [
        | inl pool ↦
            let goes : start_chain chain_id ≡ connects c = rw (p, start_chain, pool) in
            let (finds, _) = for_chain_id_iff chain_id c in
            let (l, i) = finds p in
            subst (λ x. In x all_chains × (x.chain_id ≡ chain_id) × (x.aave_pool ≢ 0))
              (connects_eq (sym goes ∙ e)) (l, i, ground (arith, pool))
        | inr pool ↦
            let stops : start_chain chain_id ≡ no_lending c = rw (p, start_chain, pool) in
            absurd (no_lending≢connects c spec (sym stops ∙ e))
      ]
    ]

-- How the start ends on a chain id: with no listed chain of that id, or on one without an Aave pool.
abbrev pub StartFits : ℕ → Start → Type 0
StartFits chain_id (unsupported id) =
    (id ≡ chain_id) × ¬ ((c : ChainSpec) × In c all_chains × (c.chain_id ≡ chain_id))
StartFits chain_id (no_lending c) = In c all_chains × (c.chain_id ≡ chain_id) × (c.aave_pool ≡ 0)
StartFits chain_id (connects c) = Unit

pub start_chain-StartFits : (chain_id : ℕ) → StartFits chain_id (start_chain chain_id)
unfolding start_chain
start_chain-StartFits chain_id = elim (Option-cases (for_chain_id chain_id)) [
  | inl p ↦ rw (p, start_chain) (refl, λ (c, l, i). absurd (none≢some c (sym p ∙ found_for c l i)))
  | inr (c, p) ↦
      let (l, i) = (for_chain_id_iff chain_id c).0 p in
      elim (Bool-cases (lending_protocol_available c)) [
        | inl pool ↦ rw (p, start_chain, pool) tt
        | inr pool ↦ rw (p, start_chain, pool) (l, i, ground (arith, pool))
      ]
]
  where
    found_for :
        (c : ChainSpec) → In c all_chains → c.chain_id ≡ chain_id → for_chain_id chain_id ≡ some c
    found_for c l i = (for_chain_id_iff chain_id c).1 (l, i)
