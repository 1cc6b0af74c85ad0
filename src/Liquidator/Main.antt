-- ===== src/Liquidator/Main.antt =====
-- crates/liquidator/src/main.rs: the start, and the loop of scan, save and checks. The chain behind
-- the RPC provider and the file system are states that the calls thread through.
pub mod Launch
pub mod Checks
pub mod Persistence
pub mod Reach
pub mod Rounds
mod Tests
use alpharouting.Prelude.{
  ℕ, ◌≡◌, Bool, true, false, Option, none, some, List, [], ◌∷◌, ltb, if◌then◌else◌,
}
use alpharouting.Text.{Text}
use alpharouting.Config.{ChainSpec}
use alpharouting.Config.Registry.{Start, connects, unsupported, no_lending, start_chain}
use alpharouting.Liquidator.Uint256.{Uint256}
use alpharouting.Liquidator.Aave.{Build}
use alpharouting.Liquidator.Settings.{Settings, ok, missing, invalid, from_env}
use alpharouting.Liquidator.Discovery.{
  BorrowerRegistry, Log, Outcome, scanned, no_head, no_logs, out_of_fuel, Scan, scan_new_borrowers,
}
use alpharouting.Liquidator.Discovery.File.{
  FileSystem, RegistryJson, loaded, unreadable, malformed, Saved, saved, no_directory,
  not_serialised, not_written, load_or_default, save,
}
use alpharouting.Liquidator.Bot.{
  Contracts, Abi, Checked, no_debt, healthy, no_pair, liquidated, failed, rejected, unconfirmed,
  panicked, check_and_liquidate,
}

-- The provider's calls. The logs are those of the lending pool.
pub record Rpc (S : Type 0) : Type 0 where
  pub get_block_number : S → Option ℕ × S
  pub get_logs : ℕ → ℕ → S → Option (List Log) × S
  pub get_reserves_list : S → Option (List ℕ) × S
  pub contracts : Contracts S

pub record BotState (S W : Type 0) : Type 0 where
  pub registry : BorrowerRegistry
  pub world : W
  pub chain : S

-- A pass over the borrowers: each that was checked with how its check ended, and whether the pass
-- came to its end, which only a panic prevents.
pub record Pass (S : Type 0) : Type 0 where
  pub checks : List (ℕ × Checked)
  pub completed : Bool
  pub chain : S

pub data Round (S W : Type 0) : Type 0 where
  continues panics : BotState S W → List (ℕ × Checked) → Round S W
  -- The error of a save, which ends the program.
  exits : Saved → Round S W

pub data Launched (S W : Type 0) : Type 0 where
  -- The errors of each step, in their order.
  missing_setting invalid_setting : Text → Launched S W
  unsupported_chain : ℕ → Launched S W
  nothing_to_liquidate : ChainSpec → Launched S W
  bad_private_key bad_rpc_url no_reserves_list unreadable_registry malformed_registry : Launched S W
  started : Settings → List ℕ → BotState S W → Launched S W

abbrev pub is_panic : Checked → Bool
is_panic panicked = true
is_panic no_debt = false
is_panic healthy = false
is_panic no_pair = false
is_panic (liquidated l) = false
is_panic failed = false
is_panic (rejected l) = false
is_panic (unconfirmed l) = false

module _ {S : Type 0} (rpc : Rpc S) where
  pub scan : BorrowerRegistry → S → Scan S
  scan registry s =
      let (head, s') = rpc.get_block_number s in scan_new_borrowers rpc.get_logs head registry s'

  -- The `for` loop over a copy of the registry's borrowers: an error is logged, and the loop goes
  -- on.
  pub check_all : Uint256 → Abi → Build → Settings → List ℕ → List ℕ → S → Pass S
  check_all u256 abi build settings reserves_list [] s = record {
    checks = [];
    completed = true;
    chain = s;
  }
  check_all u256 abi build settings reserves_list (borrower ∷ borrowers) s =
      let (c, s') =
        check_and_liquidate u256 rpc.contracts abi build settings reserves_list borrower s in
      elim (is_panic c) [
        | true ↦ record { checks = (borrower, c) ∷ []; completed = false; chain = s' }
        | false ↦
            let rest = check_all u256 abi build settings reserves_list borrowers s' in
            record rest { checks = (borrower, c) ∷ rest.checks }
      ]

module _ {W : Type 0} (fs : FileSystem W) (json : RegistryJson) where
  -- The `match` on the scan: `saved` also where there is nothing to save.
  pub save_if_new : Text → Outcome → BorrowerRegistry → W → Saved × W
  save_if_new path (scanned new_count) registry w = elim (ltb 0 new_count) [
    | true ↦ save fs json registry path w
    | false ↦ (saved, w)
  ]
  save_if_new path no_head registry w = (saved, w)
  save_if_new path (no_logs from to) registry w = (saved, w)
  save_if_new path out_of_fuel registry w = (saved, w)

module _ {S W : Type 0} where
  -- The end of a round, by what came of the save and of the pass.
  pub finish : Saved → BorrowerRegistry → W → Pass S → Round S W
  finish saved registry w pass =
      let st : BotState S W = record { registry = registry; world = w; chain = pass.chain } in
      if pass.completed then continues st pass.checks else panics st pass.checks
  finish no_directory registry w pass = exits no_directory
  finish not_serialised registry w pass = exits not_serialised
  finish not_written registry w pass = exits not_written

module _ {S W : Type 0} (rpc : Rpc S) (fs : FileSystem W) (json : RegistryJson) where
  -- `main` up to its loop. The parsers of the key and of the URL are alloy's.
  pub launch :
      (Text → Option Text)
      → (Text → Option ℕ)
      → (Text → Option ℕ)
      → (Text → Bool)
      → (Text → Bool)
      → W
      → S
      → Launched S W
  launch env parse_address parse_u256 is_key is_url w s =
      elim (from_env env parse_address parse_u256) [
        | missing key ↦ missing_setting key
        | invalid key ↦ invalid_setting key
        | ok settings ↦ elim (start_chain settings.chain_id) [
          | unsupported chain_id ↦ unsupported_chain chain_id
          | no_lending chain_spec ↦ nothing_to_liquidate chain_spec
          | connects chain_spec ↦ elim (is_key settings.private_key) [
            | false ↦ bad_private_key
            | true ↦ elim (is_url settings.rpc_url) [
              | false ↦ bad_rpc_url
              | true ↦
                  let (answer, s') = rpc.get_reserves_list s in
                  elim answer [
                    | none ↦ no_reserves_list
                    | some reserves_list ↦
                        elim (load_or_default fs json settings.borrower_cache_path
                          settings.discovery_start_block w) [
                            | unreadable ↦ unreadable_registry
                            | malformed ↦ malformed_registry
                            | loaded registry ↦
                                started settings reserves_list
                                  (record { registry = registry; world = w; chain = s' })
                          ]
                  ]
            ]
          ]
        ]
      ]

  -- The body of the `loop`. A save that fails ends the program before the checks.
  pub round : Uint256 → Abi → Build → Settings → List ℕ → BotState S W → Round S W
  unfolding scan save_if_new check_all finish
  round u256 abi build settings reserves_list st =
      let found = scan rpc st.registry st.chain in
      let (out, w) =
        save_if_new fs json settings.borrower_cache_path found.outcome found.registry st.world in
      let pass =
        check_all rpc u256 abi build settings reserves_list found.registry.borrowers
          found.provider in
      finish out found.registry w pass
