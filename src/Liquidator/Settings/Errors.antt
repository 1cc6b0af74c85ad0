-- ===== src/Liquidator/Settings/Errors.antt =====
-- crates/liquidator/src/settings.rs: what an error of the settings says is the case.
use alpharouting.Prelude.{
  ℕ, ◌<◌, ◌^◌, ◌≡◌, ◌↔◌, inl, inr, Option-cases, Option, none, some, List, [], ◌∷◌, In, here, there,
}
use alpharouting.Text.{Text, codes}
use alpharouting.Text.Decimal.{decimal}
use alpharouting.Text.Decimal.Laws.{parse_unsigned-decimal, parse_unsigned-lt}
use alpharouting.Liquidator.Settings.{
  EnvResult, ok, missing, invalid, ◌>>=◌, parse_u64, parse_u32, parsed, require_env, require_parsed,
  parsed_or, from_env,
}

abbrev pub required : List Text
required =
    codes "RPC_URL"
    ∷ codes "PRIVATE_KEY"
    ∷ codes "CONTRACT_ADDRESS"
    ∷ codes "CHAIN_ID"
    ∷ codes "AAVE_POOL_DATA_PROVIDER"
    ∷ []

-- The variables that have a format, with the parser of each.
abbrev pub formats : (Text → Option ℕ) → (Text → Option ℕ) → List (Text × (Text → Option ℕ))
formats parse_address parse_u256 =
    (codes "CONTRACT_ADDRESS", parse_address)
    ∷ (codes "CHAIN_ID", parse_u64)
    ∷ (codes "AAVE_POOL_DATA_PROVIDER", parse_address)
    ∷ (codes "DISCOVERY_START_BLOCK", parse_u64)
    ∷ (codes "MIN_PROFIT", parse_u256)
    ∷ (codes "SELL_FEE_BPS", parse_u32)
    ∷ (codes "POLL_INTERVAL_SECS", parse_u64)
    ∷ []

module _ (env : Text → Option Text) (parse_address parse_u256 : Text → Option ℕ) where
  -- What an error claims: a required variable is not set, or a variable is set to a text that its
  -- parser refuses.
  abbrev pub Blames : {A : Type 0} → EnvResult A → Type 0
  Blames (ok a) = Unit
  Blames (missing key) = In key required × (env key ≡ none)
  Blames (invalid key) =
      (parse : Text → Option ℕ) × (value : Text) × In (key, parse)
        (formats parse_address parse_u256)
      × (env key ≡ some value)
      × (parse value ≡ none)

  Blames-bind :
      {A B : Type 0} (m : EnvResult A) (f : A → EnvResult B)
      → Blames m
      → ((a : A) → Blames (f a))
      → Blames (m >>= f)
  Blames-bind (ok a) f h k = k a
  Blames-bind (missing key) f h k = h
  Blames-bind (invalid key) f h k = h

  require_env-Blames : (key : Text) → In key required → Blames (require_env env key)
  unfolding require_env
  require_env-Blames key i = elim (Option-cases (env key)) [
    | inl p ↦ rw (p, require_env) (i, p)
    | inr (v, p) ↦ rw (p, require_env) tt
  ]

  parsed-Blames :
      (key : Text) (parse : Text → Option ℕ) (value : Text)
      → In (key, parse) (formats parse_address parse_u256)
      → env key ≡ some value
      → Blames (parsed key parse value)
  unfolding parsed
  parsed-Blames key parse value i e = elim (Option-cases (parse value)) [
    | inl p ↦ rw (p, parsed) (parse, value, i, e, p)
    | inr (a, p) ↦ rw (p, parsed) tt
  ]

  require_parsed-Blames :
      (key : Text) (parse : Text → Option ℕ)
      → In key required
      → In (key, parse) (formats parse_address parse_u256)
      → Blames (require_parsed env key parse)
  unfolding require_parsed require_env
  require_parsed-Blames key parse r i = elim (Option-cases (env key)) [
    | inl p ↦ rw (p, require_parsed, require_env) (r, p)
    | inr (v, p) ↦ rw (p, require_parsed, require_env) (parsed-Blames key parse v i p)
  ]

  parsed_or-Blames :
      (key : Text) (parse : Text → Option ℕ) (default : ℕ)
      → In (key, parse) (formats parse_address parse_u256)
      → Blames (parsed_or env key parse default)
  unfolding parsed_or
  parsed_or-Blames key parse default i = elim (Option-cases (env key)) [
    | inl p ↦ rw (p, parsed_or) tt
    | inr (v, p) ↦ rw (p, parsed_or) (parsed-Blames key parse v i p)
  ]

  -- The error that the settings end with is true: a variable that it calls missing is one of the five
  -- required ones and is not set, and one that it calls invalid is set to a text that its parser
  -- refuses.
  pub from_env-Blames : Blames (from_env env parse_address parse_u256)
  unfolding from_env
  from_env-Blames = Blames-bind _ _ (require_env-Blames (codes "RPC_URL") here) λ a.
      Blames-bind _ _ (require_env-Blames (codes "PRIVATE_KEY") (search (here, there) depth 8)) λ b.
        Blames-bind _ _
          (require_parsed-Blames (codes "CONTRACT_ADDRESS") parse_address
            (search (here, there) depth 8) here)
          λ c.
            Blames-bind _ _
              (require_parsed-Blames (codes "CHAIN_ID") parse_u64 (search (here, there) depth 8)
                (search (here, there) depth 8))
              λ d.
                Blames-bind _ _
                  (require_parsed-Blames (codes "AAVE_POOL_DATA_PROVIDER") parse_address
                    (search (here, there) depth 8) (search (here, there) depth 8))
                  λ e.
                    Blames-bind _ _
                      (parsed_or-Blames (codes "DISCOVERY_START_BLOCK") parse_u64 0
                        (search (here, there) depth 8))
                      λ f.
                        Blames-bind _ _
                          (parsed_or-Blames (codes "MIN_PROFIT") parse_u256 1
                            (search (here, there) depth 8))
                          λ g.
                            Blames-bind _ _
                              (parsed_or-Blames (codes "SELL_FEE_BPS") parse_u32 3000
                                (search (here, there) depth 8))
                              λ h.
                                Blames-bind _ _
                                  (parsed_or-Blames (codes "POLL_INTERVAL_SECS") parse_u64 30
                                    (search (here, there) depth 8))
                                  λ i. tt

-- A `u64` variable accepts the decimal form of a number exactly if it is below 2 ^ 64, as that
-- number.
pub parse_u64-decimal : (n : ℕ) → (parse_u64 (decimal n) ≡ some n) ↔ (n < 2 ^ 64)
unfolding parse_u64
parse_u64-decimal n =
    ((λ e. parse_unsigned-lt (2 ^ 64) (decimal n) n e), λ h. parse_unsigned-decimal (2 ^ 64) n h)
