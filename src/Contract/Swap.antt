-- ===== src/Contract/Swap.antt =====
-- src/AlphaRouting.sol: the swap of the seized collateral and the choice of its router.
use alpharouting.Prelude.{ℕ, Bool, false, not, List, [], ◌∷◌, ◌==◌, if◌then◌else◌}
use alpharouting.Text.{Text, codes}
use alpharouting.Contract.{
  Immutables, done, Action, ◌>>=◌, ◌>>◌, pure, revert, require, look, panic, unsupported_dex,
  dex_not_configured,
}
use alpharouting.Contract.Evm.{Evm}

abbrev pub dex_uniswap : Text
dex_uniswap = codes "uniswap"

abbrev pub dex_sushiswap : Text
dex_sushiswap = codes "sushiswap"

abbrev pub dex_baseswap : Text
dex_baseswap = codes "baseswap"

abbrev pub dex_pancakeswap : Text
dex_pancakeswap = codes "pancakeswap"

abbrev pub dex_aerodrome : Text
dex_aerodrome = codes "aerodrome"

-- `amounts[amounts.length - 1]`.
unfoldable pub last_amount : {G W : Type 0} → List ℕ → Action G W ℕ
last_amount [] = revert panic
last_amount (x ∷ []) = pure x
last_amount (x ∷ y ∷ xs) = last_amount (y ∷ xs)

module _ {G W : Type 0} (evm : Evm G W) (c : Immutables) where
  unfoldable pub is_dex : Text → Text → Bool
  is_dex dex candidate = evm.codec.keccak dex == evm.codec.keccak candidate

  unfoldable pub router_for : Text → Action G W ℕ
  unfolding is_dex
  router_for dex = do
    router ←
        if is_dex dex dex_uniswap
        then pure c.uniswap_v3_router
        else (if is_dex dex dex_sushiswap
            then pure c.sushiswap_v3_router
            else (if is_dex dex dex_baseswap
                then pure c.baseswap_v3_router
                else (if is_dex dex dex_pancakeswap
                    then pure c.pancakeswap_v3_router
                    else (if is_dex dex dex_aerodrome
                        then pure c.aerodrome_router
                        else revert (unsupported_dex dex)))))
    require (not (router == 0)) (dex_not_configured dex)
    pure router

  unfoldable pub swap_aerodrome : ℕ → ℕ → ℕ → ℕ → Action G W ℕ
  unfolding last_amount
  swap_aerodrome router token_in token_out amount_in = do
    factory ← look (evm.default_factory router)
    deadline ← look (λ w. done (evm.timestamp w))
    amounts ← evm.swap_exact_tokens router (record {
      amount_in = amount_in;
      amount_out_min = 0;
      from = token_in;
      to = token_out;
      stable = false;
      factory = factory;
      recipient = evm.this;
      deadline = deadline;
    })
    last_amount amounts

  unfoldable pub swap_v3 : ℕ → ℕ → ℕ → ℕ → ℕ → Action G W ℕ
  swap_v3 router token_in token_out fee amount_in = evm.exact_input_single router (record {
    token_in = token_in;
    token_out = token_out;
    fee = fee;
    recipient = evm.this;
    amount_in = amount_in;
    amount_out_minimum = 0;
    sqrt_price_limit = 0;
  })

  unfoldable pub swap : Text → ℕ → ℕ → ℕ → ℕ → Action G W ℕ
  unfolding router_for swap_aerodrome swap_v3
  swap dex token_in token_out fee amount_in = do
    router ← router_for dex
    evm.force_approve token_in router amount_in
    (if is_dex dex dex_aerodrome
        then swap_aerodrome router token_in token_out amount_in
        else swap_v3 router token_in token_out fee amount_in)
