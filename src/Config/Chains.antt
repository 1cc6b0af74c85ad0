-- ===== src/Config/Chains.antt =====
-- crates/config/src/chain_spec.rs: the chains.
use alpharouting.Prelude.{ℕ, none, some, [], ◌∷◌}
use alpharouting.Config.{ChainStatus, ChainSpec, address_zero}

abbrev pub balancer_v2_vault : ℕ
balancer_v2_vault = 0xba12222222228d8ba445958a75a0704d566bf2c8

abbrev pub base_mainnet : ChainSpec
base_mainnet = record {
  chain_id = 8453;
  name = b'B' ∷ b'a' ∷ b's' ∷ b'e' ∷ [];
  status = ChainStatus.live;
  aave_pool = 0xa238dd80c259a72e81d7e4664a9801593f98d1c5;
  aave_addresses_provider = 0xe20fcbdbffc4dd138ce8b2e6fbb6cb49777ad64d;
  aave_ui_pool_data_provider = 0x68100bd5345ea474d93577127c11f39ff8463e93;
  aave_pool_data_provider = 0xd82a47fdebb5bf5329b09441c3dab4b5df2153ad;
  multicall3 = 0xca11bde05977b3631167028862be2a173976ca11;
  usdc = 0x833589fcd6edb6e08f4c7c32d4f71b54bda02913;
  weth = 0x4200000000000000000000000000000000000006;
  chainlink_eth_usd = some 0x71041dddad3595f9ced3dccfbe3d1f4b0a16bb70;
  balancer_vault = some balancer_v2_vault;
  ws_hint_substring =
      b'g' ∷ b'.' ∷ b'a' ∷ b'l' ∷ b'c' ∷ b'h' ∷ b'e' ∷ b'm' ∷ b'y' ∷ b'.' ∷ b'c' ∷ b'o' ∷ b'm' ∷ [];
}

abbrev pub ethereum_mainnet : ChainSpec
ethereum_mainnet = record {
  chain_id = 1;
  name = b'E' ∷ b't' ∷ b'h' ∷ b'e' ∷ b'r' ∷ b'e' ∷ b'u' ∷ b'm' ∷ [];
  status = ChainStatus.live;
  aave_pool = 0x87870bca3f3fd6335c3f4ce8392d69350b4fa4e2;
  aave_addresses_provider = 0x2f39d218133afab8f2b819b1066c7e434ad94e9e;
  aave_ui_pool_data_provider = 0x3f78bbd206e4d3c504eb854232eda7e47e9fd8fc;
  aave_pool_data_provider = 0x41393e5e337606dc3821075af65aee84d7688cbd;
  multicall3 = 0xca11bde05977b3631167028862be2a173976ca11;
  usdc = 0xa0b86991c6218b36c1d19d4a2e9eb0ce3606eb48;
  weth = 0xc02aaa39b223fe8d0a0e5c4f27ead9083c756cc2;
  chainlink_eth_usd = some 0x5f4ec3df9cbd43714fe2740f5e3616155c5b8419;
  balancer_vault = some balancer_v2_vault;
  ws_hint_substring =
      b'g' ∷ b'.' ∷ b'a' ∷ b'l' ∷ b'c' ∷ b'h' ∷ b'e' ∷ b'm' ∷ b'y' ∷ b'.' ∷ b'c' ∷ b'o' ∷ b'm' ∷ [];
}

abbrev pub arbitrum_one : ChainSpec
arbitrum_one = record {
  chain_id = 42161;
  name = b'A' ∷ b'r' ∷ b'b' ∷ b'i' ∷ b't' ∷ b'r' ∷ b'u' ∷ b'm' ∷ [];
  status = ChainStatus.live;
  aave_pool = 0x794a61358d6845594f94dc1db02a252b5b4814ad;
  aave_addresses_provider = 0xa97684ead0e402dc232d5a977953df7ecbab3cdb;
  aave_ui_pool_data_provider = 0x5c5228ac8bc1528482514af3e27e692495148717;
  aave_pool_data_provider = 0x69fa688f1dc47d4b5d8029d5a35fb7a548310654;
  multicall3 = 0xca11bde05977b3631167028862be2a173976ca11;
  usdc = 0xaf88d065e77c8cc2239327c5edb3a432268e5831;
  weth = 0x82af49447d8a07e3bd95bd0d56f35241523fbab1;
  chainlink_eth_usd = some 0x639fe6ab55c921f74e7fac1ee960c0b6293ba612;
  balancer_vault = some balancer_v2_vault;
  ws_hint_substring =
      b'g' ∷ b'.' ∷ b'a' ∷ b'l' ∷ b'c' ∷ b'h' ∷ b'e' ∷ b'm' ∷ b'y' ∷ b'.' ∷ b'c' ∷ b'o' ∷ b'm' ∷ [];
}

abbrev pub optimism : ChainSpec
optimism = record {
  chain_id = 10;
  name = b'O' ∷ b'p' ∷ b't' ∷ b'i' ∷ b'm' ∷ b'i' ∷ b's' ∷ b'm' ∷ [];
  status = ChainStatus.live;
  aave_pool = 0x794a61358d6845594f94dc1db02a252b5b4814ad;
  aave_addresses_provider = 0xa97684ead0e402dc232d5a977953df7ecbab3cdb;
  aave_ui_pool_data_provider = 0x9b1ef85d44778b224b6ae4c00194e5c690091caa;
  aave_pool_data_provider = 0x7f23d86ee20d869112572136221e173428dd740b;
  multicall3 = 0xca11bde05977b3631167028862be2a173976ca11;
  usdc = 0x0b2c639c533813f4aa9d7837caf62653d097ff85;
  weth = 0x4200000000000000000000000000000000000006;
  chainlink_eth_usd = some 0x13e3ee699d1909e989722e753853ae30b17e08c5;
  balancer_vault = some balancer_v2_vault;
  ws_hint_substring =
      b'g' ∷ b'.' ∷ b'a' ∷ b'l' ∷ b'c' ∷ b'h' ∷ b'e' ∷ b'm' ∷ b'y' ∷ b'.' ∷ b'c' ∷ b'o' ∷ b'm' ∷ [];
}

abbrev pub polygon : ChainSpec
polygon = record {
  chain_id = 137;
  name = b'P' ∷ b'o' ∷ b'l' ∷ b'y' ∷ b'g' ∷ b'o' ∷ b'n' ∷ [];
  status = ChainStatus.live;
  aave_pool = 0x794a61358d6845594f94dc1db02a252b5b4814ad;
  aave_addresses_provider = 0xa97684ead0e402dc232d5a977953df7ecbab3cdb;
  aave_ui_pool_data_provider = 0xc4806d24da0d6d28f48a0daa9b1f39a4f4cb6e3f;
  aave_pool_data_provider = 0x69fa688f1dc47d4b5d8029d5a35fb7a548310654;
  multicall3 = 0xca11bde05977b3631167028862be2a173976ca11;
  usdc = 0x3c499c542cef5e3811e1192ce70d8cc03d5c3359;
  weth = 0x7ceb23fd6bc0add59e62ac25578270cff1b9f619;
  chainlink_eth_usd = some 0xf9680d99d6c9589e2a93a78a04a279e509205945;
  balancer_vault = some balancer_v2_vault;
  ws_hint_substring =
      b'g' ∷ b'.' ∷ b'a' ∷ b'l' ∷ b'c' ∷ b'h' ∷ b'e' ∷ b'm' ∷ b'y' ∷ b'.' ∷ b'c' ∷ b'o' ∷ b'm' ∷ [];
}

abbrev pub bnb_chain : ChainSpec
bnb_chain = record {
  chain_id = 56;
  name = b'B' ∷ b'N' ∷ b'B' ∷ b' ' ∷ b'C' ∷ b'h' ∷ b'a' ∷ b'i' ∷ b'n' ∷ [];
  status = ChainStatus.preview;
  aave_pool = 0x6807dc923806fe8fd134338eabca509979a7e0cb;
  aave_addresses_provider = 0xff75b6da14ffbbfd355daf7a2731456b3562ba6d;
  aave_ui_pool_data_provider = 0x83a26baf7bd09be78b8a25e10de7df0bf41eb9c9;
  aave_pool_data_provider = 0x23df2a19384231afd114b036c14b6b03324d79bc;
  multicall3 = 0xca11bde05977b3631167028862be2a173976ca11;
  usdc = 0x8ac76a51cc950d9822d68b83fe1ad97b32cd580d;
  weth = 0x2170ed0880ac9a755fd29b2688956bd959f933f8;
  chainlink_eth_usd = some 0x9ef1b8c0e4f7dc8bf5719ea496883dc6401d5b2e;
  balancer_vault = none;
  ws_hint_substring =
      b'b' ∷ b'i' ∷ b'n' ∷ b'a' ∷ b'n' ∷ b'c' ∷ b'e' ∷ b'.' ∷ b'o' ∷ b'r' ∷ b'g' ∷ [];
}

abbrev pub monad : ChainSpec
monad = record {
  chain_id = 41454;
  name = b'M' ∷ b'o' ∷ b'n' ∷ b'a' ∷ b'd' ∷ [];
  status = ChainStatus.live;
  aave_pool = address_zero;
  aave_addresses_provider = address_zero;
  aave_ui_pool_data_provider = address_zero;
  aave_pool_data_provider = address_zero;
  multicall3 = 0xca11bde05977b3631167028862be2a173976ca11;
  usdc = 0x0000000000000000000000000000000000000001;
  weth = 0x0000000000000000000000000000000000000002;
  chainlink_eth_usd = none;
  balancer_vault = none;
  ws_hint_substring = [];
}
