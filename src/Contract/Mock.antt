-- ===== src/Contract/Mock.antt =====
-- test/mocks: the pool, the tokens and the router of the tests of src/AlphaRouting.sol, as the
-- world that the contract runs in. Allowances are left out.
pub mod Laws
use alpharouting.Prelude.{
  ℕ, ◌+◌, ◌-◌, ◌*◌, ◌/◌, ◌^◌, ◌≡◌, ◌≢◌, refl, sym, ap, ◌∙◌, inl, inr, Bool, true, false, ◌&&◌,
  Bool-cases, Option, none, some, List, [], ◌∷◌, arith, leb, ◌==◌, if◌then◌else◌,
}
use alpharouting.Text.{Text, codes, text_eq}
use alpharouting.Contract.{
  Immutables, State, Action, Outcome, done, reverted, call_failed, LiqParams, ◌>>=◌, ◌>>◌, pure,
  require, gets,
}
use alpharouting.Contract.Evm.{Evm, Modifiers, Codec, ExactInput, Callback}

pub record Guard : Type 0 where
  pub owner : ℕ
  pub entered : Bool

-- The balances by token and account, and what the tests set.
pub record Ledger : Type 0 where
  pub balances : ℕ → ℕ → ℕ
  pub health_factor : ℕ
  pub collateral_per_debt_unit_wad : ℕ
  pub rate_wad : ℕ

abbrev pub this : ℕ
this = 100

abbrev pub pool : ℕ
pool = 200

abbrev pub router : ℕ
router = 300

abbrev set_balance : (ℕ → ℕ → ℕ) → ℕ → ℕ → ℕ → ℕ → ℕ → ℕ
set_balance b token account n t a = if t == token && a == account then n else b t a

abbrev pub moved : Ledger → ℕ → ℕ → ℕ → ℕ → Ledger
moved w token from to n =
    let taken = set_balance w.balances token from (w.balances token from - n) in
    record w { balances = set_balance taken token to (taken token to + n) }

-- MockERC20: a transfer of what is there.
unfoldable pub move : ℕ → ℕ → ℕ → ℕ → Action Guard Ledger (Unit {0})
move token from to n s =
    if leb n (s.world.balances token from)
    then done (tt, record s { world = moved s.world token from to n })
    else reverted call_failed

-- MockAavePool.
unfoldable pub flash_loan_simple :
    ℕ → Callback Guard Ledger → ℕ → ℕ → ℕ → Text → ℕ → Action Guard Ledger (Unit {0})
unfolding move
flash_loan_simple lender callback receiver asset amount params referral = do
  move asset lender receiver amount
  returned ← callback lender asset amount (amount * 9 / 10000) this params
  require returned call_failed
  move asset receiver lender (amount + amount * 9 / 10000)

unfoldable pub liquidation_call : ℕ → ℕ → ℕ → ℕ → ℕ → Bool → Action Guard Ledger (Unit {0})
unfolding move
liquidation_call lender collateral debt user cover receive_a_token = do
  move debt this lender cover
  rate ← gets λ s. s.world.collateral_per_debt_unit_wad
  move collateral lender this (cover * rate / 10 ^ 18)

-- MockSwapRouter.
unfoldable pub exact_input_single : ℕ → ExactInput → Action Guard Ledger ℕ
unfolding move
exact_input_single dex i = do
  move i.token_in this dex i.amount_in
  rate ← gets λ s. s.world.rate_wad
  let amount_out = i.amount_in * rate / 10 ^ 18
  require (leb i.amount_out_minimum amount_out) call_failed
  move i.token_out dex i.recipient amount_out
  pure amount_out

abbrev pub modifiers : Modifiers Guard
modifiers = record {
  init = λ o. if o == 0 then none else some (record { owner = o; entered = false });
  owner = λ g. g.owner;
  is_owner = λ sender g. sender == g.owner;
  entered = λ g. g.entered;
  before = λ g. if g.entered then none else some (record g { entered = true });
  after = λ g. record g { entered = false };
}

abbrev pub codec : Codec
codec = record {
  encode_liq = λ p.
      p.collateral_asset ∷ p.debt_asset ∷ p.borrower ∷ p.debt_to_cover ∷ p.sell_fee ∷ p.min_profit
      ∷ p.sell_dex;
  decode_liq = λ t. decode t;
  decode_swap = λ t. decode_three t;
  keccak = λ t.
      if text_eq t (codes "uniswap") then 1 else (if text_eq t (codes "aerodrome") then 2 else 0);
}
  where
    decode_three : Text → Option (Text × ℕ × ℕ)
    decode_three (fee ∷ min_profit ∷ dex) = some (dex, fee, min_profit)
    decode_three _ = none

    decode : Text → Option LiqParams
    decode (a ∷ d ∷ b ∷ n ∷ fee ∷ min_profit ∷ dex) = some (record {
      collateral_asset = a;
      debt_asset = d;
      borrower = b;
      debt_to_cover = n;
      sell_dex = dex;
      sell_fee = fee;
      min_profit = min_profit;
    })
    decode _ = none

abbrev pub mock : Evm Guard Ledger
mock = record {
  modifiers = modifiers;
  codec = codec;
  this = this;
  timestamp = λ w. 0;
  get_pool = λ provider w. done provider;
  balance_of = λ token account w. done (w.balances token account);
  eth_balance = λ account w. 0;
  get_health_factor = λ lender user w. done w.health_factor;
  default_factory = λ dex w. reverted call_failed;
  force_approve = λ token spender n. pure tt;
  safe_transfer = λ token to n. move token this to n;
  send_eth = λ to n. pure true;
  liquidation_call = liquidation_call;
  exact_input_single = exact_input_single;
  swap_exact_tokens = λ dex i s. reverted call_failed;
  flash_loan_simple = flash_loan_simple;
}
