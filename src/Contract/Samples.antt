-- ===== src/Contract/Samples.antt =====
-- Data for the tests of src/AlphaRouting.sol: the set-up of test/AlphaRouting.t.sol.
use alpharouting.Prelude.{
  ℕ, ◌*◌, ◌^◌, ◌≡◌, refl, true, false, ◌&&◌, [], ◌∷◌, ◌==◌, if◌then◌else◌, All, arith,
}
use alpharouting.Text.{Text, codes, text_eq}
use alpharouting.Contract.Dexes.{routers}
use alpharouting.Contract.{
  Immutables, State, Outcome, done, reverted, ◌>>=◌, pure, require, decoded, look, gets, modify,
  add, sub,
}
use alpharouting.Liquidator.Settings.{Settings}
use alpharouting.Liquidator.Bot.{Liquidation}
use alpharouting.Liquidator.Samples.{settings, liquidation}
use alpharouting.Contract.Swap.{dex_uniswap, router_for, swap}
use alpharouting.Contract.Strategy.{run_liquidation, execute_operation, sell, seize, settle}
use alpharouting.Contract.Entry.{only_owner, non_reentrant, execute_liquidation}
use alpharouting.Contract.Mock.{
  Guard, Ledger, pool, router, mock, flash_loan_simple, liquidation_call, exact_input_single,
}

abbrev pub owner : ℕ
owner = 9

abbrev pub stranger : ℕ
stranger = 8

abbrev pub borrower : ℕ
borrower = 7

abbrev pub usdc : ℕ
usdc = 11

abbrev pub weth : ℕ
weth = 13

abbrev pub c : Immutables
c = record {
  aave_provider = pool;
  uniswap_v3_router = router;
  sushiswap_v3_router = 0;
  baseswap_v3_router = 0;
  pancakeswap_v3_router = 0;
  aerodrome_router = 0;
  pool = pool;
  balancer_vault = 0;
}

abbrev pub balances : ℕ → ℕ → ℕ
balances token account =
    if token == usdc && account == pool
    then 10 ^ 12
    else (if token == weth && account == pool
        then 10 ^ 21
        else (if token == usdc && account == router then 10 ^ 12 else 0))

-- A health factor, and the dollars for a whole token.
abbrev pub state : ℕ → ℕ → State Guard Ledger
state health_factor dollars = record {
  inherited = record { owner = owner; entered = false };
  lock = 0;
  strategy = 0;
  snapshot = 0;
  logs = [];
  world = record {
    balances = balances;
    health_factor = health_factor;
    collateral_per_debt_unit_wad = 10 ^ 27;
    rate_wad = dollars * 10 ^ 6;
  };
}

abbrev pub swap_params : ℕ → Text
swap_params min_profit = 3000 ∷ min_profit ∷ codes "uniswap"

unfoldable pub run : ℕ → ℕ → ℕ → ℕ → Outcome (Unit {0} × State Guard Ledger)
unfolding execute_liquidation
run sender health_factor dollars min_profit =
    execute_liquidation mock c sender weth usdc borrower (1000 * 10 ^ 6) (swap_params min_profit)
      (state health_factor dollars)

-- The state after a call, or the state before where it reverts.
abbrev pub after :
    {A : Type 0} → Outcome (A × State Guard Ledger) → State Guard Ledger → State Guard Ledger
after (done (_, t)) s = t
after (reverted e) s = s

abbrev pub final : State Guard Ledger
final = after (run owner (95 * 10 ^ 16) 1166 1) (state (95 * 10 ^ 16) 1166)

pub run_ends : run owner (95 * 10 ^ 16) 1166 1 ≡ done (tt, final)
unfolding run ◌>>=◌ pure require decoded look gets modify add sub only_owner non_reentrant
    flash_loan_simple execute_operation run_liquidation seize sell settle swap router_for text_eq
    liquidation_call exact_input_single
run_ends = refl

-- The state in a guarded function.
abbrev pub entered : State Guard Ledger
entered = record (state (95 * 10 ^ 16) 1166) {
  inherited = record { owner = owner; entered = true };
}

-- The liquidator's settings of its own tests, with a name that the router table has.
abbrev pub uniswap_settings : Settings
uniswap_settings = record (settings 3000) { sell_dex = dex_uniswap }

abbrev pub sent_liquidation : Liquidation
sent_liquidation = record liquidation { swap_params = swap_params 1 }

abbrev pub earned : State Guard Ledger
earned =
    after
      (execute_liquidation mock c owner weth usdc 9 5 (swap_params 1) (state (95 * 10 ^ 16) 2000))
      (state (95 * 10 ^ 16) 2000)

-- The hash of the mocks tells Uniswap's name from the others.
pub uniswap_names_no_other :
    All (λ e. mock.codec.keccak dex_uniswap ≡ mock.codec.keccak e.0 → dex_uniswap ≡ e.0) (routers c)
unfolding text_eq
uniswap_names_no_other = (
  λ _. refl,
  (
    λ p. absurd (omega (arith, p)),
    (
      λ p. absurd (omega (arith, p)),
      (λ p. absurd (omega (arith, p)), (λ p. absurd (omega (arith, p)), tt)),
    ),
  ),
)
