-- ===== src/Config/Tests.antt =====
-- The unit tests of crates/config/src/chain_spec.rs, and the theorems at concrete inputs.
use alpharouting.Prelude.{◌≡◌, refl, false, All}
use alpharouting.Config.{
  lending_protocol_available, balancer_available, oracle_boundary_trigger_available,
}
use alpharouting.Config.Chains.{bnb_chain, monad}
use alpharouting.Config.Registry.{all_chains, connects, no_lending, unsupported, start_chain}

oracle_follows_lending :
    All (λ c. oracle_boundary_trigger_available c ≡ lending_protocol_available c) all_chains
oracle_follows_lending = (refl, (refl, (refl, (refl, (refl, (refl, (refl, tt)))))))

monad_has_no_balancer : balancer_available monad ≡ false
monad_has_no_balancer = refl

-- A chain that is a preview connects like the others.
bnb_chain_connects : start_chain 56 ≡ connects bnb_chain
unfolding start_chain
bnb_chain_connects = refl

monad_does_not_connect : start_chain 41454 ≡ no_lending monad
unfolding start_chain
monad_does_not_connect = refl

unknown_chain : start_chain 2 ≡ unsupported 2
unfolding start_chain
unknown_chain = refl
