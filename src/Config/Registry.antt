-- ===== src/Config/Registry.antt =====
-- crates/config/src/chain_spec.rs: the lookup of a chain, and the tests that
-- crates/liquidator/src/main.rs makes with it when it starts.
use alpharouting.Prelude.{ℕ, Option, none, some, List, [], ◌∷◌, ◌==◌, if◌then◌else◌}
use alpharouting.Config.{ChainSpec, lending_protocol_available}
use alpharouting.Config.Chains.{
  base_mainnet, ethereum_mainnet, arbitrum_one, optimism, polygon, bnb_chain, monad,
}

-- The `match`, from its first arm to its last.
unfoldable pub for_chain_id : ℕ → Option ChainSpec
for_chain_id chain_id =
    if chain_id == 8453
    then some base_mainnet
    else (if chain_id == 1
        then some ethereum_mainnet
        else (if chain_id == 42161
            then some arbitrum_one
            else (if chain_id == 10
                then some optimism
                else (if chain_id == 137
                    then some polygon
                    else (if chain_id == 56
                        then some bnb_chain
                        else (if chain_id == 41454 then some monad else none))))))

abbrev pub all_chains : List ChainSpec
all_chains =
    base_mainnet ∷ ethereum_mainnet ∷ arbitrum_one ∷ optimism ∷ polygon ∷ bnb_chain ∷ monad ∷ []

pub data Start : Type 0 where
  connects : ChainSpec → Start
  unsupported : ℕ → Start
  no_lending : ChainSpec → Start

-- `main` up to the first use of the network.
unfoldable pub start_chain : ℕ → Start
unfolding for_chain_id
start_chain chain_id = elim (for_chain_id chain_id) [
  | none ↦ unsupported chain_id
  | some chain_spec ↦
      if lending_protocol_available chain_spec then connects chain_spec else no_lending chain_spec
]
