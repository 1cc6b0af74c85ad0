-- ===== src/Liquidator/Settings.antt =====
-- crates/liquidator/src/settings.rs: the settings, read from the environment. The environment is a
-- function, and so are alloy's parsers of an address and of a `U256`.
pub mod Complete
pub mod Errors
mod Tests
use alpharouting.Prelude.{ℕ, ◌^◌, Option, none, some}
use alpharouting.Text.{Text, codes}
use alpharouting.Text.Decimal.{parse_unsigned}

-- An address is a number, and the polling interval is in seconds.
pub record Settings : Type 0 where
  pub rpc_url : Text
  pub private_key : Text
  pub contract_address : ℕ
  pub chain_id : ℕ
  pub pool_data_provider : ℕ
  pub discovery_start_block : ℕ
  pub borrower_cache_path : Text
  pub min_profit : ℕ
  pub sell_dex : Text
  pub sell_fee_bps : ℕ
  pub poll_interval : ℕ

-- `Ok`, or the error about a variable that is missing, or whose value cannot be parsed.
pub data EnvResult (A : Type 0) : Type 0 where
  ok : A → EnvResult A
  missing invalid : Text → EnvResult A

infixl 5 ◌>>=◌
abbrev pub ◌>>=◌ : {A B : Type 0} → EnvResult A → (A → EnvResult B) → EnvResult B
ok a >>= f = f a
missing key >>= f = missing key
invalid key >>= f = invalid key

pub parse_u64 : Text → Option ℕ
parse_u64 s = parse_unsigned (2 ^ 64) s

pub parse_u32 : Text → Option ℕ
parse_u32 s = parse_unsigned (2 ^ 32) s

-- `value.parse().context(..)`.
pub parsed : {A : Type 0} → Text → (Text → Option A) → Text → EnvResult A
parsed key parse value = elim (parse value) [ none ↦ invalid key | some a ↦ ok a ]

module _ (env : Text → Option Text) where
  pub require_env : Text → EnvResult Text
  require_env key = elim (env key) [ none ↦ missing key | some value ↦ ok value ]

  -- `require_env(key)?.parse().context(..)?`.
  pub require_parsed : {A : Type 0} → Text → (Text → Option A) → EnvResult A
  unfolding require_env parsed
  require_parsed key parse = do value ← require_env key; parsed key parse value

  -- `var(key).ok().map(parse).transpose().context(..)?.unwrap_or(default)`.
  pub parsed_or : {A : Type 0} → Text → (Text → Option A) → A → EnvResult A
  unfolding parsed
  parsed_or key parse default = elim (env key) [
    | none ↦ ok default
    | some value ↦ parsed key parse value
  ]

  -- `var(key).unwrap_or_else(..)`.
  pub text_or : Text → Text → Text
  text_or key default = elim (env key) [ none ↦ default | some value ↦ value ]

  unfoldable pub from_env : (Text → Option ℕ) → (Text → Option ℕ) → EnvResult Settings
  unfolding require_parsed parsed_or text_or parse_u64 parse_u32
  from_env parse_address parse_u256 = do
    rpc_url ← require_env (codes "RPC_URL")
    private_key ← require_env (codes "PRIVATE_KEY")
    contract_address ← require_parsed (codes "CONTRACT_ADDRESS") parse_address
    chain_id ← require_parsed (codes "CHAIN_ID") parse_u64
    pool_data_provider ← require_parsed (codes "AAVE_POOL_DATA_PROVIDER") parse_address
    discovery_start_block ← parsed_or (codes "DISCOVERY_START_BLOCK") parse_u64 0
    let borrower_cache_path = text_or (codes "BORROWER_CACHE_PATH") (codes "borrowers.json")
    min_profit ← parsed_or (codes "MIN_PROFIT") parse_u256 1
    let sell_dex = text_or (codes "SELL_DEX") (codes "uniswap")
    sell_fee_bps ← parsed_or (codes "SELL_FEE_BPS") parse_u32 3000
    poll_interval ← parsed_or (codes "POLL_INTERVAL_SECS") parse_u64 30
    ok (record {
      rpc_url = rpc_url;
      private_key = private_key;
      contract_address = contract_address;
      chain_id = chain_id;
      pool_data_provider = pool_data_provider;
      discovery_start_block = discovery_start_block;
      borrower_cache_path = borrower_cache_path;
      min_profit = min_profit;
      sell_dex = sell_dex;
      sell_fee_bps = sell_fee_bps;
      poll_interval = poll_interval;
    })
