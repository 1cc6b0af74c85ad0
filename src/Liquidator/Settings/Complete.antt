-- ===== src/Liquidator/Settings/Complete.antt =====
-- crates/liquidator/src/settings.rs: which environments are accepted, and which errors are reported.
use alpharouting.Prelude.{
  ℕ, ◌≡◌, ◌⊎◌, ◌↔◌, refl, sym, ap, subst, ◌∙◌, inl, inr, Option-cases, Option, none, some,
}
use alpharouting.Text.{Text, codes}
use alpharouting.Liquidator.Settings.{
  Settings, EnvResult, ok, missing, invalid, ◌>>=◌, parse_u64, parse_u32, parsed, require_env,
  require_parsed, parsed_or, text_or, from_env,
}

-- A chain of results that succeeds has succeeded at its first step.
bind_ok :
    {A B P : Type 0} (m : EnvResult A) (f : A → EnvResult B) {b : B}
    → ((a : A) → m ≡ ok a → f a ≡ ok b → P)
    → (m >>= f) ≡ ok b
    → P
bind_ok (ok a) f k e = k a refl e
bind_ok (missing key) f k e = cc
bind_ok (invalid key) f k e = cc

ok_eq : {A : Type 0} {a b : A} → ◌≡◌ {A = EnvResult A} (ok a) (ok b) → a ≡ b
ok_eq e = cc

some_eq : {a b : Text} → ◌≡◌ {A = Option Text} (some a) (some b) → a ≡ b
some_eq e = cc

none≢some : (a : Text) → ◌≡◌ {A = Option Text} none (some a) → ⊥
none≢some a e = cc

parsed_iff :
    {A : Type 0} (key : Text) (parse : Text → Option A) (value : Text) (a : A)
    → (parsed key parse value ≡ ok a) ↔ (parse value ≡ some a)
unfolding parsed
parsed_iff key parse value a = elim (Option-cases (parse value)) [
  | inl p ↦ rw (p, parsed) ((λ e. cc), λ e. cc)
  | inr (b, p) ↦ rw (p, parsed) ((λ e. ap some (ok_eq e)), λ e. cc)
]

module _ (env : Text → Option Text) where
  -- The variable is set, to a text that is read as `a`.
  abbrev pub IsParsed : {A : Type 0} → Text → (Text → Option A) → A → Type 0
  IsParsed key parse a = (value : Text) × (env key ≡ some value) × (parse value ≡ some a)

  -- The variable is set so, or it is not set and `a` is the default.
  abbrev pub IsParsedOr : {A : Type 0} → Text → (Text → Option A) → A → A → Type 0
  IsParsedOr key parse default a = ((env key ≡ none) × (a ≡ default)) ⊎ IsParsed key parse a

  abbrev pub IsTextOr : Text → Text → Text → Type 0
  IsTextOr key default a = ((env key ≡ none) × (a ≡ default)) ⊎ (env key ≡ some a)

  require_env_iff : (key value : Text) → (require_env env key ≡ ok value) ↔ (env key ≡ some value)
  unfolding require_env
  require_env_iff key value = elim (Option-cases (env key)) [
    | inl p ↦ rw (p, require_env) ((λ e. cc), λ e. cc)
    | inr (v, p) ↦ rw (p, require_env) ((λ e. cc), λ e. cc)
  ]

  require_parsed_iff :
      {A : Type 0} (key : Text) (parse : Text → Option A) (a : A)
      → (require_parsed env key parse ≡ ok a) ↔ IsParsed key parse a
  unfolding require_parsed require_env
  require_parsed_iff key parse a = elim (Option-cases (env key)) [
    | inl p ↦ rw (p, require_parsed, require_env) ((λ e. cc), λ (v, e, q). cc)
    | inr (v, p) ↦
        let (forth, back) = parsed_iff key parse v a in
        rw (p, require_parsed, require_env)
          ((λ e. (v, refl, forth e)), λ (w, e, q). back (ap parse (some_eq e) ∙ q))
  ]

  parsed_or_iff :
      {A : Type 0} (key : Text) (parse : Text → Option A) (default a : A)
      → (parsed_or env key parse default ≡ ok a) ↔ IsParsedOr key parse default a
  unfolding parsed_or
  parsed_or_iff key parse default a = elim (Option-cases (env key)) [
    | inl p ↦ (
      (λ e. inl (p, sym (ok_eq (sym (unset p) ∙ e)))),
      λ how. elim how [
        | inl (_, d) ↦ unset p ∙ ap ok (sym d)
        | inr (v, e, q) ↦ absurd (none≢some v (sym p ∙ e))
      ],
    )
    | inr (v, p) ↦
        let (forth, back) = parsed_iff key parse v a in
        (
          (λ e. inr (v, p, forth (sym (set v p) ∙ e))),
          λ how. elim how [
            | inl (n, _) ↦ absurd (none≢some v (sym n ∙ p))
            | inr (w, e, q) ↦ set v p ∙ back (ap parse (some_eq (sym p ∙ e)) ∙ q)
          ],
        )
  ]
    where
      unset : env key ≡ none → parsed_or env key parse default ≡ ok default
      unset p = rw (p, parsed_or)

      set : (v : Text) → env key ≡ some v → parsed_or env key parse default ≡ parsed key parse v
      set v p = rw (p, parsed_or)

  text_or_iff : (key default a : Text) → (text_or env key default ≡ a) ↔ IsTextOr key default a
  unfolding text_or
  text_or_iff key default a = elim (Option-cases (env key)) [
    | inl p ↦ (
      (λ e. inl (p, sym e ∙ unset p)),
      λ how. elim how [ inl (_, d) ↦ unset p ∙ sym d | inr e ↦ absurd (none≢some a (sym p ∙ e)) ],
    )
    | inr (v, p) ↦ (
      (λ e. inr (p ∙ ap some (sym (set v p) ∙ e))),
      λ how. elim how [
        | inl (n, _) ↦ absurd (none≢some v (sym n ∙ p))
        | inr e ↦ set v p ∙ some_eq (sym p ∙ e)
      ],
    )
  ]
    where
      unset : env key ≡ none → text_or env key default ≡ default
      unset p = rw (p, text_or)

      set : (v : Text) → env key ≡ some v → text_or env key default ≡ v
      set v p = rw (p, text_or)

  -- What the environment says of each setting.
  pub record IsRead (parse_address parse_u256 : Text → Option ℕ) (s : Settings) : Type 0 where
    pub rpc_url : env (codes "RPC_URL") ≡ some s.rpc_url
    pub private_key : env (codes "PRIVATE_KEY") ≡ some s.private_key
    pub contract_address : IsParsed (codes "CONTRACT_ADDRESS") parse_address s.contract_address
    pub chain_id : IsParsed (codes "CHAIN_ID") parse_u64 s.chain_id
    pub pool_data_provider :
        IsParsed (codes "AAVE_POOL_DATA_PROVIDER") parse_address s.pool_data_provider
    pub discovery_start_block :
        IsParsedOr (codes "DISCOVERY_START_BLOCK") parse_u64 0 s.discovery_start_block
    pub borrower_cache_path :
        IsTextOr (codes "BORROWER_CACHE_PATH") (codes "borrowers.json") s.borrower_cache_path
    pub min_profit : IsParsedOr (codes "MIN_PROFIT") parse_u256 1 s.min_profit
    pub sell_dex : IsTextOr (codes "SELL_DEX") (codes "uniswap") s.sell_dex
    pub sell_fee_bps : IsParsedOr (codes "SELL_FEE_BPS") parse_u32 3000 s.sell_fee_bps
    pub poll_interval : IsParsedOr (codes "POLL_INTERVAL_SECS") parse_u64 30 s.poll_interval

  read :
      (parse_address parse_u256 : Text → Option ℕ) (s : Settings)
      → from_env env parse_address parse_u256 ≡ ok s
      → IsRead parse_address parse_u256 s
  unfolding from_env
  read parse_address parse_u256 s = bind_ok (require_env env (codes "RPC_URL")) _ λ rpc_url a.
      bind_ok (require_env env (codes "PRIVATE_KEY")) _ λ private_key b.
        bind_ok (require_parsed env (codes "CONTRACT_ADDRESS") parse_address) _ λ contract c.
          bind_ok (require_parsed env (codes "CHAIN_ID") parse_u64) _ λ chain_id d.
            bind_ok (require_parsed env (codes "AAVE_POOL_DATA_PROVIDER") parse_address) _
              λ provider f.
                bind_ok (parsed_or env (codes "DISCOVERY_START_BLOCK") parse_u64 0) _
                  λ start_block g.
                    bind_ok (parsed_or env (codes "MIN_PROFIT") parse_u256 1) _ λ min_profit h.
                      bind_ok (parsed_or env (codes "SELL_FEE_BPS") parse_u32 3000) _ λ sell_fee i.
                        bind_ok (parsed_or env (codes "POLL_INTERVAL_SECS") parse_u64 30) _
                          λ interval j e.
                            subst (IsRead parse_address parse_u256) (ok_eq e) (record {
                              rpc_url = (require_env_iff (codes "RPC_URL") rpc_url).0 a;
                              private_key = (require_env_iff (codes "PRIVATE_KEY") private_key).0 b;
                              contract_address =
                                  (require_parsed_iff (codes "CONTRACT_ADDRESS") parse_address
                                      contract).0
                                    c;
                              chain_id =
                                  (require_parsed_iff (codes "CHAIN_ID") parse_u64 chain_id).0 d;
                              pool_data_provider =
                                  (require_parsed_iff (codes "AAVE_POOL_DATA_PROVIDER")
                                      parse_address provider).0
                                    f;
                              discovery_start_block =
                                  (parsed_or_iff (codes "DISCOVERY_START_BLOCK") parse_u64 0
                                      start_block).0
                                    g;
                              borrower_cache_path =
                                  (text_or_iff (codes "BORROWER_CACHE_PATH")
                                      (codes "borrowers.json") _).0
                                    refl;
                              min_profit =
                                  (parsed_or_iff (codes "MIN_PROFIT") parse_u256 1 min_profit).0 h;
                              sell_dex =
                                  (text_or_iff (codes "SELL_DEX") (codes "uniswap") _).0 refl;
                              sell_fee_bps =
                                  (parsed_or_iff (codes "SELL_FEE_BPS") parse_u32 3000 sell_fee).0
                                    i;
                              poll_interval =
                                  (parsed_or_iff (codes "POLL_INTERVAL_SECS") parse_u64 30
                                      interval).0
                                    j;
                            })

  accept :
      (parse_address parse_u256 : Text → Option ℕ) (s : Settings)
      → IsRead parse_address parse_u256 s
      → from_env env parse_address parse_u256 ≡ ok s
  unfolding from_env
  accept parse_address parse_u256 s r = rw (
    (require_env_iff (codes "RPC_URL") s.rpc_url).1 r.rpc_url,
    from_env,
    (require_env_iff (codes "PRIVATE_KEY") s.private_key).1 r.private_key,
    (require_parsed_iff (codes "CONTRACT_ADDRESS") parse_address s.contract_address).1
        r.contract_address,
    (require_parsed_iff (codes "CHAIN_ID") parse_u64 s.chain_id).1 r.chain_id,
    (require_parsed_iff (codes "AAVE_POOL_DATA_PROVIDER") parse_address s.pool_data_provider).1
        r.pool_data_provider,
    (parsed_or_iff (codes "DISCOVERY_START_BLOCK") parse_u64 0 s.discovery_start_block).1
        r.discovery_start_block,
    (text_or_iff (codes "BORROWER_CACHE_PATH") (codes "borrowers.json") s.borrower_cache_path).1
        r.borrower_cache_path,
    (parsed_or_iff (codes "MIN_PROFIT") parse_u256 1 s.min_profit).1 r.min_profit,
    (text_or_iff (codes "SELL_DEX") (codes "uniswap") s.sell_dex).1 r.sell_dex,
    (parsed_or_iff (codes "SELL_FEE_BPS") parse_u32 3000 s.sell_fee_bps).1 r.sell_fee_bps,
    (parsed_or_iff (codes "POLL_INTERVAL_SECS") parse_u64 30 s.poll_interval).1 r.poll_interval,
  )

  -- Settings are read from the environment exactly if the five required variables are set, each
  -- variable that is set and has a format can be parsed, and each field is what its variable says,
  -- or the default where the variable is not set.
  pub from_env_iff :
      (parse_address parse_u256 : Text → Option ℕ) (s : Settings)
      → (from_env env parse_address parse_u256 ≡ ok s) ↔ IsRead parse_address parse_u256 s
  from_env_iff parse_address parse_u256 s =
      ((λ e. read parse_address parse_u256 s e), λ r. accept parse_address parse_u256 s r)
