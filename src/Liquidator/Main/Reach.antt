-- ===== src/Liquidator/Main/Reach.antt =====
-- crates/liquidator/src/main.rs: the bot over rounds, crashes and restarts. A save that fails ends
-- the program with a file that nothing is known of, so no run goes on from there.
use alpharouting.Prelude.{
  ℕ, ◌^◌, ◌<◌, ◌≤◌, ◌≡◌, ◌≢◌, sym, ◌∙◌, subst, inl, Bool, true, false, some, List, In, length,
}
use alpharouting.OrderedSet.{has}
use alpharouting.OrderedSet.Laws.{has-In}
use alpharouting.Liquidator.Uint256.{Uint256}
use alpharouting.Liquidator.Aave.{Build, ReserveFlags}
use alpharouting.Liquidator.Settings.{Settings}
use alpharouting.Liquidator.Discovery.{BorrowerRegistry, Log}
use alpharouting.Liquidator.Discovery.Coverage.{found_between, Covers, Covers-trans}
use alpharouting.Liquidator.Discovery.File.{FileSystem, RegistryJson, loaded, IsReliable}
use alpharouting.Liquidator.Bot.{AccountData, UserReserveData, Abi, Checked}
use alpharouting.Liquidator.Bot.Answered.{
  positions, Answers, EndsRightly, check_and_liquidate-EndsRightly,
}
use alpharouting.Liquidator.Main.{Rpc, BotState, continues, panics, scan}
use alpharouting.Liquidator.Main.Rounds.{IsAfter, RoundFits, round-RoundFits, run, round_reaches}
use alpharouting.Liquidator.Main.Persistence.{
  start_registry, IsHonest, scan-Covers, load, Disk, save_if_new-Disk, load-Covers,
}

module _ {S W : Type 0} (rpc : Rpc S) (fs : FileSystem W) (json : RegistryJson) (u256 : Uint256)
    (abi : Abi) (build : Build) (settings : Settings) (reserves_list : List ℕ) where
  -- The states of the bot from its first start, without a file, over rounds and restarts. A restart
  -- may come between two rounds or after a panic, and finds the chain in any state.
  pub data Reach : BotState S W → Type 0 where
    first :
        {w : W} {registry : BorrowerRegistry}
        → fs.exists settings.borrower_cache_path w ≡ false
        → load fs json settings w ≡ loaded registry
        → (s : S) → Reach (record { registry = registry; world = w; chain = s })
    next :
        {st st' : BotState S W} {checks : List (ℕ × Checked)}
        → Reach st
        → run rpc fs json u256 abi build settings reserves_list st ≡ continues st' checks
        → Reach st'
    restart :
        {st : BotState S W} {registry : BorrowerRegistry}
        → Reach st
        → load fs json settings st.world ≡ loaded registry
        → (s : S) → Reach (record { registry = registry; world = st.world; chain = s })
    crash :
        {st st' : BotState S W} {checks : List (ℕ × Checked)} {registry : BorrowerRegistry}
        → Reach st
        → run rpc fs json u256 abi build settings reserves_list st ≡ panics st' checks
        → load fs json settings st'.world ≡ loaded registry
        → (s : S) → Reach (record { registry = registry; world = st'.world; chain = s })

  module _ (block_logs : ℕ → List Log) where
    pub record IsSound (st : BotState S W) : Type 0 where
      pub covers : Covers block_logs (start_registry settings) st.registry
      pub disk : Disk fs json settings block_logs st.world

    IsAfter-IsSound :
        IsHonest block_logs rpc
        → IsReliable fs json settings.borrower_cache_path
        → (st st' : BotState S W) (checks : List (ℕ × Checked)) (completed : Bool) → IsSound st
        → IsAfter rpc fs json u256 abi build settings reserves_list st st' checks completed
        → IsSound st'
    IsAfter-IsSound honest reliable st st' checks completed sound after =
        let found = scan rpc st.registry st.chain in
        let extended =
          Covers-trans block_logs (start_registry settings) st.registry found.registry sound.covers
            (scan-Covers block_logs rpc honest st.registry st.chain sound.covers.ordered) in
        record {
          covers =
              subst (Covers block_logs (start_registry settings)) (sym after.registry) extended;
          disk =
              save_if_new-Disk fs json settings block_logs reliable found.outcome found.registry
                st.world st'.world extended sound.disk after.save;
        }

    -- However often the bot is restarted, between rounds or after a panic, its registry holds exactly
    -- the borrowers in the logs of the blocks after the configured start block up to the one that it
    -- has as the last scanned, and so does the registry in its file, if there is one. The provider
    -- answers a window with the logs of its blocks or fails, and its heads are below 2 ^ 64 - 5000;
    -- the file system and the serialisation keep what was written.
    pub Reach-IsSound :
        IsHonest block_logs rpc
        → IsReliable fs json settings.borrower_cache_path
        → (st : BotState S W) → Reach st
        → IsSound st
    Reach-IsSound honest reliable _ (first {w} {registry} absent e s) = record {
      covers = load-Covers fs json settings block_logs reliable w registry (inl absent) e;
      disk = inl absent;
    }
    Reach-IsSound honest reliable _ (next {st} {st'} {checks} r e) =
        IsAfter-IsSound honest reliable st st' checks true (Reach-IsSound honest reliable st r) (
          subst (RoundFits rpc fs json u256 abi build settings reserves_list st) e
            (round-RoundFits rpc fs json u256 abi build settings reserves_list st))
    Reach-IsSound honest reliable _ (restart {st} {registry} r e s) =
        let sound = Reach-IsSound honest reliable st r in
        record {
          covers = load-Covers fs json settings block_logs reliable st.world registry sound.disk e;
          disk = sound.disk;
        }
    Reach-IsSound honest reliable _ (crash {st} {st'} {checks} {registry} r p e s) =
        let sound =
          IsAfter-IsSound honest reliable st st' checks false (Reach-IsSound honest reliable st r) (
            subst (RoundFits rpc fs json u256 abi build settings reserves_list st) p
              (round-RoundFits rpc fs json u256 abi build settings reserves_list st)) in
        record {
          covers = load-Covers fs json settings block_logs reliable st'.world registry sound.disk e;
          disk = sound.disk;
        }

    -- From a log to a liquidation, of a borrower of which the contracts report the same in every
    -- state of the chain, also after a transaction: some debt, a health factor below 10 ^ 18, and the
    -- flags and balances of its reserves, at most 64 of them, with debts that fit 256 bits five
    -- thousand times. If the borrower is in the logs of a block from the start block's successor to
    -- the last scanned one, then a round from a reachable state that does not end the program has
    -- checked it, and has sent a liquidation of it that is right for its balances, unless it has
    -- nothing to repay or to seize. The provider answers a window with the logs of its blocks or
    -- fails, and its heads are below 2 ^ 64 - 5000; the file system and the serialisation keep what
    -- was written; and the encoder takes the configured fee.
    pub borrower_is_liquidated :
        IsHonest block_logs rpc
        → IsReliable fs json settings.borrower_cache_path
        → (st st' : BotState S W) (checks : List (ℕ × Checked)) → Reach st
        → run rpc fs json u256 abi build settings reserves_list st ≡ continues st' checks
        → (borrower : ℕ) (account : AccountData) (flags : List ReserveFlags)
          (info : ℕ → UserReserveData) (fee : ℕ)
        → has borrower (
            found_between block_logs settings.discovery_start_block st'.registry.last_scanned_block)
          ≡ true
        → Answers u256 rpc.contracts borrower account flags info
        → length flags ≡ length reserves_list
        → length flags ≤ 64
        → abi.uint24_from settings.sell_fee_bps ≡ some fee
        → account.total_debt_base ≢ 0
        → account.health_factor < 10 ^ 18
        → (c : Checked) × In (borrower, c) checks
          × EndsRightly u256 rpc.contracts borrower (positions info reserves_list flags) c
    borrower_is_liquidated honest reliable st st' checks r e borrower account flags info fee logged
          answers same few f owes unhealthy =
        let sound = Reach-IsSound honest reliable st' (next r e) in
        let known : has borrower st'.registry.borrowers ≡ true =
          sound.covers.exact borrower ∙ logged in
        let (c, i, (s, g)) =
          round_reaches rpc fs json u256 abi build settings reserves_list st st' checks e borrower
            (has-In borrower st'.registry.borrowers known) in
        (
          c,
          i,
          subst (EndsRightly u256 rpc.contracts borrower (positions info reserves_list flags))
              (sym g)
              (check_and_liquidate-EndsRightly u256 rpc.contracts borrower account flags info
                answers abi build settings reserves_list fee s same few f owes unhealthy),
        )
