-- ===== src/Liquidator/Main/Tests.antt =====
-- The bot of crates/liquidator/src/main.rs at concrete inputs: a chain of eight blocks with one
-- borrower, and a file system with one file.
use alpharouting.Prelude.{
  ℕ, ◌+◌, ◌-◌, ◌^◌, ◌<◌, ◌≡◌, ◌↔◌, refl, sym, ap, subst, In, true, false, Option, none, some, List,
  [], ◌∷◌, arith, ◌==◌, if◌then◌else◌,
}
use alpharouting.Text.{Text, text_eq}
use alpharouting.Text.Decimal.{parse_unsigned}
use alpharouting.OrderedSet.{extend, has}
use alpharouting.Liquidator.Samples.{
  account, info, contracts, abi, settings, liquidation, reserves_list, low, flags,
  contracts-Answers, lookup, parse, vars, read_settings,
}
use alpharouting.Config.Registry.{start_chain}
use alpharouting.Liquidator.Uint256.{wrapping}
use alpharouting.Liquidator.Settings.{Settings, from_env}
use alpharouting.Liquidator.Aave.{debug, decode_user_configuration}
use alpharouting.Liquidator.Select.{select_liquidation_target}
use alpharouting.Liquidator.Discovery.{BorrowerRegistry, Log, borrowers_of, scan_new_borrowers}
use alpharouting.Liquidator.Discovery.Coverage.{logs_between, found_between}
use alpharouting.Liquidator.Discovery.File.{
  FileSystem, RegistryJson, saved, IsReliable, loaded, load_or_default, save,
}
use alpharouting.Liquidator.Discovery.Restart.{load_or_default-save}
use alpharouting.Liquidator.Bot.{Checked, liquidated, check_and_liquidate}
use alpharouting.Liquidator.Bot.Answered.{positions, EndsRightly}
use alpharouting.Liquidator.Main.{Rpc, BotState, continues, started, bad_private_key, launch, round}
use alpharouting.Liquidator.Main.Launch.{IsLaunched, IsExplained, launch_iff, launch-IsExplained}
use alpharouting.Liquidator.Main.Persistence.{IsHonest}
use alpharouting.Liquidator.Main.Reach.{
  Reach, first, next, IsSound, Reach-IsSound, borrower_is_liquidated,
}

abbrev block_logs : ℕ → List Log
block_logs n = if n == 4 then record { topics = 17 ∷ 1 ∷ 2 ∷ 9 ∷ [] } ∷ [] else []

abbrev rpc : Rpc ℕ
rpc = record {
  get_block_number = λ s. (some 8, s);
  get_logs = λ from to s. (some (logs_between block_logs from (to + 1 - from)), s);
  get_reserves_list = λ s. (some reserves_list, s);
  contracts = contracts low;
}

-- What the one file holds, if there is one.
abbrev fs : FileSystem (Option Text)
fs = record {
  parent = λ path. some [];
  exists = λ path w. elim w [ none ↦ false | some raw ↦ true ];
  read_to_string = λ path w. w;
  create_dir_all = λ path w. (true, w);
  write = λ path raw w. (true, some raw);
}

abbrev from_numbers : Text → Option BorrowerRegistry
from_numbers [] = none
from_numbers (last ∷ borrowers) = some (record { last_scanned_block = last; borrowers = borrowers })

abbrev json : RegistryJson
json = record {
  to_string_pretty = λ r. some (r.last_scanned_block ∷ r.borrowers);
  from_str = from_numbers;
}

some_eq : {a b : Text} → ◌≡◌ {A = Option Text} (some a) (some b) → a ≡ b
some_eq e = cc

fs-IsReliable : (path : Text) → IsReliable fs json path
fs-IsReliable path = record {
  written = λ raw w e. (refl, refl);
  parses = λ registry raw o e. ap from_numbers (sym (some_eq e));
}

logs_eq : {a b : List Log} → ◌≡◌ {A = Option (List Log)} (some a) (some b) → b ≡ a
logs_eq e = cc

head_eq : {a b : ℕ} → ◌≡◌ {A = Option ℕ} (some a) (some b) → a ≡ b
head_eq e = cc

abbrev config : Settings
config = settings 3000

rpc-IsHonest : IsHonest block_logs rpc
rpc-IsHonest = record {
  faithful = λ from to s logs e. logs_eq e;
  heads = λ s head e. subst (λ h. h + 5000 < 2 ^ 64) (head_eq e) (omega arith);
}

abbrev fresh : BotState ℕ (Option Text)
fresh = record {
  registry = record { last_scanned_block = 0; borrowers = [] };
  world = none;
  chain = 0;
}

abbrev after : BotState ℕ (Option Text)
after = record {
  registry = record { last_scanned_block = 8; borrowers = 9 ∷ [] };
  world = some (8 ∷ 9 ∷ []);
  chain = 1;
}

abbrev outcomes : List (ℕ × Checked)
outcomes = (9, liquidated liquidation) ∷ []

first_round :
    round rpc fs json wrapping abi debug config reserves_list fresh ≡ continues after outcomes
unfolding round check_and_liquidate decode_user_configuration select_liquidation_target
    scan_new_borrowers logs_between save extend
first_round = refl

second_load :
    load_or_default fs json config.borrower_cache_path 0 after.world ≡ loaded after.registry
unfolding load_or_default
second_load = refl

fresh_load : load_or_default fs json config.borrower_cache_path 0 none ≡ loaded fresh.registry
unfolding load_or_default
fresh_load = refl

saves : (save fs json after.registry config.borrower_cache_path none).0 ≡ saved
unfolding save
saves = refl

load_or_default-save_example :
    load_or_default fs json config.borrower_cache_path 0
      (save fs json after.registry config.borrower_cache_path none).1
    ≡ loaded after.registry
load_or_default-save_example =
    load_or_default-save fs json config.borrower_cache_path
      (fs-IsReliable config.borrower_cache_path) after.registry 0 none (omega arith, tt) saves

abbrev Reached : BotState ℕ (Option Text) → Type 0
Reached = Reach rpc fs json wrapping abi debug config reserves_list

reaches_fresh : Reached fresh
reaches_fresh = first refl fresh_load 0

reaches_after : Reached after
reaches_after = next reaches_fresh first_round

Reach-IsSound_example : IsSound rpc fs json wrapping abi debug config reserves_list block_logs after
Reach-IsSound_example =
    Reach-IsSound rpc fs json wrapping abi debug config reserves_list block_logs rpc-IsHonest
      (fs-IsReliable config.borrower_cache_path) after reaches_after

logged : has 9 (found_between block_logs 0 8) ≡ true
unfolding logs_between borrowers_of
logged = refl

borrower_is_liquidated_example :
    (c : Checked) × In (9, c) outcomes
    × EndsRightly wrapping (contracts low) 9 (positions (λ reserve. info) reserves_list flags) c
borrower_is_liquidated_example =
    borrower_is_liquidated rpc fs json wrapping abi debug config reserves_list block_logs
      rpc-IsHonest (fs-IsReliable config.borrower_cache_path) fresh after outcomes reaches_fresh
      first_round 9 (account low) flags (λ reserve. info) 3000 logged contracts-Answers
      (omega arith) (omega arith) refl (omega arith) (omega arith)

launched :
    launch rpc fs json (lookup vars) parse parse (λ key. true) (λ url. true) none 0
    ≡ started read_settings reserves_list fresh
unfolding launch from_env text_eq parse_unsigned start_chain load_or_default
launched = refl

launch_iff_example :
    (launch rpc fs json (lookup vars) parse parse (λ key. true) (λ url. true) none 0
      ≡ started read_settings reserves_list fresh)
    ↔ IsLaunched rpc fs json
        (lookup vars)
        parse
        parse
        (λ key. true)
        (λ url. true)
        none
        0
        read_settings
        reserves_list
        fresh
launch_iff_example =
    launch_iff rpc fs json (lookup vars) parse parse (λ key. true) (λ url. true) none 0
      read_settings reserves_list fresh

refuses_the_key :
    launch rpc fs json (lookup vars) parse parse (λ key. false) (λ url. true) none 0
    ≡ bad_private_key
unfolding launch from_env text_eq parse_unsigned start_chain
refuses_the_key = refl

launch-IsExplained_example :
    IsExplained rpc fs json
      (lookup vars)
      parse
      parse
      (λ key. false)
      (λ url. true)
      none
      0
      (launch rpc fs json (lookup vars) parse parse (λ key. false) (λ url. true) none 0)
launch-IsExplained_example =
    launch-IsExplained rpc fs json (lookup vars) parse parse (λ key. false) (λ url. true) none 0
