-- ===== src/Liquidator/Main/Launch.antt =====
-- crates/liquidator/src/main.rs: what holds when the loop is entered.
use alpharouting.Prelude.{
  ℕ, ◌≡◌, ◌≢◌, ◌↔◌, refl, ap, subst, inl, inr, Bool, true, false, none, Bool-cases, Option-cases,
  Option, some, List, In,
}
use alpharouting.Text.{Text}
use alpharouting.Config.{ChainSpec}
use alpharouting.Config.Registry.{Start, all_chains, connects, unsupported, no_lending, start_chain}
use alpharouting.Config.Lookup.{start_chain_iff, StartFits, start_chain-StartFits}
use alpharouting.Liquidator.Settings.{Settings, ok, missing, invalid, from_env}
use alpharouting.Liquidator.Settings.Complete.{IsRead, from_env_iff}
use alpharouting.Liquidator.Settings.Errors.{Blames, from_env-Blames}
use alpharouting.Liquidator.Discovery.File.{
  FileSystem, RegistryJson, Loaded, loaded, unreadable, malformed, load_or_default,
}
use alpharouting.Liquidator.Discovery.Loads.{
  IsLoaded, load_or_default-IsLoaded, IsLoaded-load_or_default,
}
use alpharouting.Liquidator.Main.{
  Rpc, BotState, Launched, started, missing_setting, invalid_setting, unsupported_chain,
  nothing_to_liquidate, bad_private_key, bad_rpc_url, no_reserves_list, unreadable_registry,
  malformed_registry, launch,
}

module _ {S W : Type 0} (rpc : Rpc S) (fs : FileSystem W) (json : RegistryJson)
    (env : Text → Option Text) (parse_address parse_u256 : Text → Option ℕ)
    (is_key is_url : Text → Bool) (w : W) (s : S) where
  -- What the file at the settings' path comes to.
  abbrev pub IsFile : Settings → Loaded → Type 0
  IsFile settings out =
      IsLoaded fs json settings.borrower_cache_path settings.discovery_start_block w out

  -- The settings are those of the environment, the chain is one of the registry's that has an Aave
  -- pool, and the bot's state is the file's registry, or a fresh one, and the chain's reserves.
  pub record IsLaunched (settings : Settings) (reserves_list : List ℕ) (st : BotState S W)
      : Type 0 where
    pub read : IsRead env parse_address parse_u256 settings
    pub chain_spec : ChainSpec
    pub chain :
        In chain_spec all_chains
        × (chain_spec.chain_id ≡ settings.chain_id)
        × (chain_spec.aave_pool ≢ 0)
    pub key : is_key settings.private_key ≡ true
    pub url : is_url settings.rpc_url ≡ true
    pub reserves : rpc.get_reserves_list s ≡ (some reserves_list, st.chain)
    pub registry : IsFile settings (loaded st.registry)
    pub world : st.world ≡ w

  -- Of the settings that the environment gives.
  abbrev pub Explained : (Settings → Type 0) → Type 0
  Explained P = (settings : Settings) × IsRead env parse_address parse_u256 settings × P settings

  -- What each way the start can end says of the world.
  abbrev pub IsExplained : Launched S W → Type 0
  IsExplained (started settings reserves_list st) = IsLaunched settings reserves_list st
  IsExplained (missing_setting key) =
      Blames env parse_address parse_u256 {A = Settings} (missing key)
  IsExplained (invalid_setting key) =
      Blames env parse_address parse_u256 {A = Settings} (invalid key)
  IsExplained (unsupported_chain id) =
      Explained λ settings. StartFits settings.chain_id (unsupported id)
  IsExplained (nothing_to_liquidate spec) =
      Explained λ settings. StartFits settings.chain_id (no_lending spec)
  IsExplained bad_private_key = Explained λ settings. is_key settings.private_key ≡ false
  IsExplained bad_rpc_url = Explained λ settings. is_url settings.rpc_url ≡ false
  IsExplained no_reserves_list = (rpc.get_reserves_list s).0 ≡ none
  IsExplained unreadable_registry = Explained λ settings. IsFile settings unreadable
  IsExplained malformed_registry = Explained λ settings. IsFile settings malformed

  abbrev Goal : Type 0
  Goal = IsExplained (launch rpc fs json env parse_address parse_u256 is_key is_url w s)

  read :
      (settings : Settings)
      → from_env env parse_address parse_u256 ≡ ok settings
      → IsRead env parse_address parse_u256 settings
  read settings e = (from_env_iff env parse_address parse_u256 settings).0 e

  loads :
      (settings : Settings) (spec : ChainSpec) (reserves_list : List ℕ)
      → from_env env parse_address parse_u256 ≡ ok settings
      → start_chain settings.chain_id ≡ connects spec
      → is_key settings.private_key ≡ true
      → is_url settings.rpc_url ≡ true
      → (rpc.get_reserves_list s).0 ≡ some reserves_list
      → Goal
  unfolding launch
  loads settings spec reserves_list e c k u r =
      let file =
        load_or_default fs json settings.borrower_cache_path settings.discovery_start_block w in
      (elim file as (λ out. file ≡ out → Goal) [
        | unreadable ↦ λ f. rw (e, launch, c, k, u, r, f) (settings, read settings e, is_loaded f)
        | malformed ↦ λ f. rw (e, launch, c, k, u, r, f) (settings, read settings e, is_loaded f)
        | loaded registry ↦ λ f.
            rw (e, launch, c, k, u, r, f)
              (record {
                read = read settings e;
                chain_spec = spec;
                chain = (start_chain_iff settings.chain_id spec).0 c;
                key = k;
                url = u;
                reserves = pair r;
                registry = is_loaded f;
                world = refl;
              })
      ])
        refl
    where
      is_loaded :
          {out : Loaded}
          → load_or_default fs json settings.borrower_cache_path settings.discovery_start_block w
            ≡ out
          → IsFile settings out
      is_loaded f = subst (IsFile settings) f (
          load_or_default-IsLoaded fs json settings.borrower_cache_path
            settings.discovery_start_block w)

      pair :
          (rpc.get_reserves_list s).0 ≡ some reserves_list
          → rpc.get_reserves_list s ≡ (some reserves_list, (rpc.get_reserves_list s).1)
      pair r = ap (λ o. (o, (rpc.get_reserves_list s).1)) r

  connected :
      (settings : Settings) (spec : ChainSpec)
      → from_env env parse_address parse_u256 ≡ ok settings
      → start_chain settings.chain_id ≡ connects spec
      → Goal
  unfolding launch
  connected settings spec e c = elim (Bool-cases (is_key settings.private_key)) [
    | inr k ↦ rw (e, launch, c, k) (settings, read settings e, k)
    | inl k ↦ elim (Bool-cases (is_url settings.rpc_url)) [
      | inr u ↦ rw (e, launch, c, k, u) (settings, read settings e, u)
      | inl u ↦ elim (Option-cases (rpc.get_reserves_list s).0) [
        | inl r ↦ rw (e, launch, c, k, u, r) r
        | inr (reserves_list, r) ↦ loads settings spec reserves_list e c k u r
      ]
    ]
  ]

  -- Whatever `main` does before its loop is explained: the loop is entered only with the settings of
  -- the environment, a chain of the registry with an Aave pool, a key and a URL that can be parsed,
  -- the reserves that the pool lists and the registry of the file or a fresh one; and each error is
  -- true: of a variable, that it is one of the required ones and not set, or is set to a text that
  -- its parser refuses; of the chain, that no chain of the registry has the id of the settings, or
  -- that it has no Aave pool; that the key or the URL cannot be parsed, that the pool lists no
  -- reserves, or that the file cannot be read or parsed.
  pub launch-IsExplained :
      IsExplained (launch rpc fs json env parse_address parse_u256 is_key is_url w s)
  unfolding launch
  launch-IsExplained =
      let result = from_env env parse_address parse_u256 in
      (elim result as (λ out. result ≡ out → Goal) [
        | missing key ↦ λ e. rw (e, launch) (subst (Blames env parse_address parse_u256) e blamed)
        | invalid key ↦ λ e. rw (e, launch) (subst (Blames env parse_address parse_u256) e blamed)
        | ok settings ↦ λ e.
            let start = start_chain settings.chain_id in
            (elim start as (λ out. start ≡ out → Goal) [
              | unsupported id ↦ λ c. rw (e, launch, c) (settings, read settings e, fits settings c)
              | no_lending spec ↦
                  λ c. rw (e, launch, c) (settings, read settings e, fits settings c)
              | connects spec ↦ λ c. connected settings spec e c
            ])
              refl
      ])
        refl
    where
      blamed : Blames env parse_address parse_u256 (from_env env parse_address parse_u256)
      blamed = from_env-Blames env parse_address parse_u256

      fits :
          (settings : Settings) {out : Start}
          → start_chain settings.chain_id ≡ out
          → StartFits settings.chain_id out
      fits settings c =
          subst (StartFits settings.chain_id) c (start_chain-StartFits settings.chain_id)

  launch_started :
      (settings : Settings) (reserves_list : List ℕ) (st : BotState S W)
      → launch rpc fs json env parse_address parse_u256 is_key is_url w s
        ≡ started settings reserves_list st
      → IsLaunched settings reserves_list st
  launch_started settings reserves_list st e = subst IsExplained e launch-IsExplained

  starts :
      (settings : Settings) (reserves_list : List ℕ) (st : BotState S W)
      → IsLaunched settings reserves_list st
      → launch rpc fs json env parse_address parse_u256 is_key is_url w s
        ≡ started settings reserves_list st
  unfolding launch
  starts settings reserves_list st h =
      let e = (from_env_iff env parse_address parse_u256 settings).1 h.read in
      let c = (start_chain_iff settings.chain_id h.chain_spec).1 h.chain in
      let answered : (rpc.get_reserves_list s).0 ≡ some reserves_list = ap (λ o. o.0) h.reserves in
      let left : (rpc.get_reserves_list s).1 ≡ st.chain = ap (λ o. o.1) h.reserves in
      let file =
        IsLoaded-load_or_default fs json settings.borrower_cache_path settings.discovery_start_block
          w st.registry h.registry in
      rw (e, launch, c, h.key, h.url, answered, file, h.world)
        (ap
          (λ s'.
            started settings reserves_list
              (record { registry = st.registry; world = w; chain = s' }))
          left)

  -- The loop is entered exactly with the settings that the environment gives, on a chain of the
  -- registry that has an Aave pool, with a key and a URL that can be parsed, with the reserves that
  -- the pool lists, and with the registry of the file or, without a file, a fresh one; and
  -- whenever all of these are there, it is entered.
  pub launch_iff :
      (settings : Settings) (reserves_list : List ℕ) (st : BotState S W)
      → (launch rpc fs json env parse_address parse_u256 is_key is_url w s
          ≡ started settings reserves_list st)
        ↔ IsLaunched settings reserves_list st
  launch_iff settings reserves_list st =
      (launch_started settings reserves_list st, starts settings reserves_list st)
