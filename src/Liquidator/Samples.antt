-- ===== src/Liquidator/Samples.antt =====
-- Data for the tests of the liquidator: contracts that report one account and its reserves, and a
-- borrower with a debt in the first of three reserves and collateral in the third.
use alpharouting.Prelude.{
  ℕ, ◌+◌, ◌*◌, ◌^◌, ◌<◌, ◌≡◌, refl, subst, true, false, Option, none, some, List, [], ◌∷◌, arith,
  ltb, if◌then◌else◌,
}
use alpharouting.Text.{Text, codes, text_eq}
use alpharouting.Text.Decimal.{parse_unsigned}
use alpharouting.Liquidator.Settings.{Settings}
use alpharouting.Liquidator.Uint256.{wrapping}
use alpharouting.Liquidator.Aave.{ReserveFlags}
use alpharouting.Liquidator.Aave.Decode.{bitmap_of}
use alpharouting.Liquidator.Bot.{AccountData, UserReserveData, Liquidation, Contracts, Abi}
use alpharouting.Liquidator.Bot.Reads.{IsBounded}
use alpharouting.Liquidator.Bot.Answered.{Answers}

abbrev pub account : ℕ → AccountData
account health_factor = record { total_debt_base = 10; health_factor = health_factor }

abbrev pub info : UserReserveData
info = record { current_a_token_balance = 40; current_stable_debt = 3; current_variable_debt = 7 }

-- Bits 0 and 5. The state counts the transactions.
abbrev pub contracts : ℕ → Contracts ℕ
contracts health_factor = record {
  get_user_account_data = λ user s. (some (account health_factor), s);
  get_user_configuration = λ user s. (some 0b100001, s);
  get_user_reserve_data = λ asset user s. (some info, s);
  execute_liquidation = λ l s. (some 77, s + 1);
  get_receipt = λ hash s. (true, s);
}

abbrev pub abi : Abi
abi = record {
  uint24_from = λ n. if ltb n (2 ^ 24) then some n else none;
  encode_params = λ dex fee min_profit. fee ∷ min_profit ∷ dex;
}

abbrev pub settings : ℕ → Settings
settings fee = record {
  rpc_url = codes "http://localhost";
  private_key = codes "key";
  contract_address = 77;
  chain_id = 8453;
  pool_data_provider = 78;
  discovery_start_block = 0;
  borrower_cache_path = codes "borrowers.json";
  min_profit = 1;
  sell_dex = codes "u";
  sell_fee_bps = fee;
  poll_interval = 30;
}

abbrev pub liquidation : Liquidation
liquidation = record {
  collateral_asset = 13;
  debt_asset = 11;
  borrower = 9;
  debt_amount = 5;
  swap_params = 3000 ∷ 1 ∷ b'u' ∷ [];
}

abbrev pub reserves_list : List ℕ
reserves_list = 11 ∷ 12 ∷ 13 ∷ []

abbrev pub low : ℕ
low = 9 * 10 ^ 17

some_eq : {a b : UserReserveData} → ◌≡◌ {A = Option UserReserveData} (some a) (some b) → a ≡ b
some_eq e = cc

pub contracts-IsBounded : IsBounded (contracts low)
contracts-IsBounded reserve borrower s d e =
    subst (λ r. (r.current_stable_debt + r.current_variable_debt) * 5000 < 2 ^ 256) (some_eq e)
      (omega arith)

abbrev pub flags : List ReserveFlags
flags =
    record { borrowing = true; collateral = false }
    ∷ record { borrowing = false; collateral = false }
    ∷ record { borrowing = false; collateral = true }
    ∷ []

pub contracts-Answers : Answers wrapping (contracts low) 9 (account low) flags (λ reserve. info)
unfolding bitmap_of
contracts-Answers = record {
  account_data = λ s. refl;
  configuration = λ s. refl;
  reserve_data = λ reserve s. refl;
  small = λ reserve. omega arith;
}

-- An environment.
abbrev pub lookup : List (Text × Text) → Text → Option Text
lookup [] key = none
lookup ((k, v) ∷ rest) key = if text_eq k key then some v else lookup rest key

-- Addresses and `U256` values as plain decimal numbers.
abbrev pub parse : Text → Option ℕ
parse s = parse_unsigned (2 ^ 256) s

abbrev pub vars : List (Text × Text)
vars =
    (codes "RPC_URL", codes "http://localhost")
    ∷ (codes "PRIVATE_KEY", codes "key")
    ∷ (codes "CONTRACT_ADDRESS", codes "77")
    ∷ (codes "CHAIN_ID", codes "+8453")
    ∷ (codes "AAVE_POOL_DATA_PROVIDER", codes "78")
    ∷ (codes "SELL_FEE_BPS", codes "500")
    ∷ []

abbrev pub read_settings : Settings
read_settings = record {
  rpc_url = codes "http://localhost";
  private_key = codes "key";
  contract_address = 77;
  chain_id = 8453;
  pool_data_provider = 78;
  discovery_start_block = 0;
  borrower_cache_path = codes "borrowers.json";
  min_profit = 1;
  sell_dex = codes "uniswap";
  sell_fee_bps = 500;
  poll_interval = 30;
}
