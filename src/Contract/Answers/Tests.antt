-- ===== src/Contract/Answers/Tests.antt =====
-- src/AlphaRouting.sol: the liquidation of the tests, step by step.
use alpharouting.Prelude.{◌*◌, ◌^◌, ◌≡◌, ◌≢◌, refl, true, false, some, [], ◌∷◌, ◌++◌, arith}
use alpharouting.Text.{text_eq}
use alpharouting.Contract.{
  State, LiqParams, done, liquidation_executed, ◌>>=◌, pure, require, decoded, look, gets, modify,
  add, sub,
}
use alpharouting.Contract.Swap.{dex_uniswap, dex_aerodrome, router_for, swap}
use alpharouting.Contract.Strategy.{run_liquidation, execute_operation, sell, seize, settle}
use alpharouting.Contract.Entry.{only_owner, non_reentrant, execute_liquidation}
use alpharouting.Contract.Reentry.{Meanwhile}
use alpharouting.Contract.Dexes.{routers, router_named}
use alpharouting.Contract.Answers.Sales.{IsRouted, Sold, v3_order}
use alpharouting.Contract.Answers.Callback.{Obliges}
use alpharouting.Contract.Answers.Complete.{begun, execute_liquidation-completes}
use alpharouting.Contract.Mock.{
  Guard, Ledger, this, pool, router, mock, moved, move, flash_loan_simple, liquidation_call,
  exact_input_single,
}
use alpharouting.Contract.Mock.Laws.{modifiers-IsGuarding, mock-IsDecoding}
use alpharouting.Contract.Samples.{
  owner, borrower, usdc, weth, c, state, swap_params, after, uniswap_names_no_other,
}

abbrev p : LiqParams
p = record {
  collateral_asset = weth;
  debt_asset = usdc;
  borrower = borrower;
  debt_to_cover = 1000 * 10 ^ 6;
  sell_dex = dex_uniswap;
  sell_fee = 3000;
  min_profit = 1;
}

abbrev start : State Guard Ledger
start = state (95 * 10 ^ 16) 1166

abbrev entered : Guard
entered = record { owner = owner; entered = true }

-- The states on the way.
abbrev taken : State Guard Ledger
taken = begun mock c start entered 0

abbrev called : State Guard Ledger
called = record taken { world = moved taken.world usdc pool this (1000 * 10 ^ 6) }

abbrev liquidated : State Guard Ledger
liquidated = after (liquidation_call pool weth usdc borrower (1000 * 10 ^ 6) false called) called

abbrev sold : State Guard Ledger
sold =
    after (exact_input_single router (v3_order mock c weth usdc 3000 (10 ^ 18)) liquidated)
      liquidated

abbrev emitted : State Guard Ledger
emitted = record sold {
  logs =
      sold.logs
      ++ liquidation_executed usdc weth borrower (1000 * 10 ^ 6) (10 ^ 18) 900000 165100000 ∷ [];
}

abbrev lent : State Guard Ledger
lent =
    after
      (flash_loan_simple pool (execute_operation mock c) this usdc (1000 * 10 ^ 6)
        (mock.codec.encode_liq p) 0 taken)
      taken

uniswap_named : router_named dex_uniswap (routers c) ≡ some router
unfolding router_named text_eq
uniswap_named = refl

not_aerodrome : dex_uniswap ≢ dex_aerodrome
not_aerodrome p = cc

uniswap-IsRouted : IsRouted mock c dex_uniswap router
uniswap-IsRouted = record {
  free = uniswap_names_no_other;
  named = uniswap_named;
  there = omega arith;
}

sells : Sold mock c dex_uniswap weth usdc 3000 (10 ^ 18) liquidated sold
unfolding pure exact_input_single liquidation_call ◌>>=◌ gets require move
sells =
    Sold.by_v3 {s' = liquidated} router 1166000000 (omega arith) not_aerodrome uniswap-IsRouted refl
      refl

obliges : Obliges mock c usdc (1000 * 10 ^ 6) 900000 p called
unfolding pure exact_input_single liquidation_call ◌>>=◌ gets require move
obliges = record {
  factor = 95 * 10 ^ 16;
  answers = refl;
  unhealthy = omega arith;
  held = 0;
  collateral_before = refl;
  approved = called;
  approves = refl;
  liquidated = liquidated;
  liquidates = refl;
  seized = 10 ^ 18;
  took = omega arith;
  collateral_after = refl;
  sold = sold;
  sells = sells;
  same_snapshot = refl;
  profit = 165100000;
  enough = omega arith;
  balance = refl;
  fits = omega arith;
  repayable = emitted;
  approves_repayment = refl;
}

lends_out :
    flash_loan_simple pool
      (execute_operation mock c)
      this
      usdc
      (1000 * 10 ^ 6)
      (mock.codec.encode_liq p)
      0
      taken
    ≡ done (tt, lent)
unfolding ◌>>=◌ pure require decoded look gets modify add sub only_owner non_reentrant
    flash_loan_simple execute_operation run_liquidation seize sell settle swap router_for text_eq
    liquidation_call exact_input_single
lends_out = refl

execute_liquidation-completes_example :
    (u : State Guard Ledger) × (execute_liquidation mock c owner weth usdc borrower
        (1000 * 10 ^ 6)
        (swap_params 1)
        start
      ≡ done (tt, u))
execute_liquidation-completes_example =
    execute_liquidation-completes mock c modifiers-IsGuarding mock-IsDecoding p (swap_params 1)
      start entered 0 refl (omega arith) (omega arith) refl refl
      (record {
        premium = 900000;
        called = called;
        meanwhile = Meanwhile.elsewhere Meanwhile.stays _;
        obliges = obliges;
        ends = λ b q. (lent, lends_out);
      })
