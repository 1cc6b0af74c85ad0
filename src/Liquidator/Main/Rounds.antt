-- ===== src/Liquidator/Main/Rounds.antt =====
-- crates/liquidator/src/main.rs: what a round of the loop does with the registry and with the
-- borrowers in it.
use alpharouting.Prelude.{
  ℕ, ◌≡◌, refl, sym, ap, ◌∙◌, subst, Bool, true, false, List, ◌++◌, map, All, In, In-All, In-map,
  append-nil,
}
use alpharouting.Liquidator.Uint256.{Uint256}
use alpharouting.Liquidator.Aave.{Build}
use alpharouting.Liquidator.Settings.{Settings}
use alpharouting.Liquidator.Discovery.{Scan}
use alpharouting.Liquidator.Discovery.File.{
  FileSystem, RegistryJson, Saved, saved, no_directory, not_serialised, not_written,
}
use alpharouting.Liquidator.Bot.{Abi, Checked, check_and_liquidate}
use alpharouting.Liquidator.Main.{
  Rpc, BotState, Pass, Round, continues, panics, exits, scan, save_if_new, check_all, finish, round,
}
use alpharouting.Liquidator.Main.Checks.{Turn, IsCheck, check_all-PassFits}

module _ {S W : Type 0} (rpc : Rpc S) (fs : FileSystem W) (json : RegistryJson) (u256 : Uint256)
    (abi : Abi) (build : Build) (settings : Settings) (reserves_list : List ℕ) where
  abbrev pub found_of : BotState S W → Scan S
  found_of st = scan rpc st.registry st.chain

  abbrev pub kept_of : BotState S W → Saved × W
  kept_of st =
      save_if_new fs json settings.borrower_cache_path (found_of st).outcome (found_of st).registry
        st.world

  abbrev pub pass_of : BotState S W → Pass S
  pass_of st =
      check_all rpc u256 abi build settings reserves_list (found_of st).registry.borrowers
        (found_of st).provider

  -- The state that a round leaves, if it comes to one, and the outcomes of its checks.
  pub record IsAfter (st st' : BotState S W) (checks : List (ℕ × Checked)) (completed : Bool)
      : Type 0 where
    pub registry : st'.registry ≡ (found_of st).registry
    pub save : kept_of st ≡ (saved, st'.world)
    pub pass : (pass_of st).checks ≡ checks
    pub ended : (pass_of st).completed ≡ completed

  abbrev pub RoundFits : BotState S W → Round S W → Type 0
  RoundFits st (continues st' checks) = IsAfter st st' checks true
  RoundFits st (panics st' checks) = IsAfter st st' checks false
  RoundFits st (exits error) = Unit

  finish-RoundFits :
      (st : BotState S W) (out : Saved) (w : W) (completed : Bool)
      → (kept_of st ≡ (out, w))
      → ((pass_of st).completed ≡ completed)
      → RoundFits st (finish out (found_of st).registry w (pass_of st))
  unfolding finish
  finish-RoundFits st saved w true e f =
      rw (f, finish) (record { registry = refl; save = e; pass = refl; ended = f })
  finish-RoundFits st saved w false e f =
      rw (f, finish) (record { registry = refl; save = e; pass = refl; ended = f })
  finish-RoundFits st no_directory w completed e f = tt
  finish-RoundFits st not_serialised w completed e f = tt
  finish-RoundFits st not_written w completed e f = tt

  pub round-RoundFits :
      (st : BotState S W)
      → RoundFits st (round rpc fs json u256 abi build settings reserves_list st)
  unfolding round
  round-RoundFits st = finish-RoundFits st _ _ _ refl refl

  abbrev pub run : BotState S W → Round S W
  run st = round rpc fs json u256 abi build settings reserves_list st

  continues-IsAfter :
      (st st' : BotState S W) (checks : List (ℕ × Checked))
      → run st ≡ continues st' checks
      → IsAfter st st' checks true
  continues-IsAfter st st' checks e = subst (RoundFits st) e (round-RoundFits st)

  abbrev IsCheckOf : BotState S W → ℕ × Checked → Type 0
  IsCheckOf st =
      IsCheck rpc u256 abi build settings reserves_list (found_of st).registry.borrowers
        (found_of st).provider

  -- In the pass of a round, it is the borrower's turn in the state.
  abbrev pub IsTurn : BotState S W → ℕ → S → Type 0
  IsTurn st borrower s =
      Turn rpc u256 abi build settings reserves_list (found_of st).registry.borrowers
        (found_of st).provider borrower s

  -- A round that does not end the program checks every borrower that the registry then has, once
  -- and in its order, and how each check ended is what the check of that borrower came to.
  round_checks :
      (st st' : BotState S W) (checks : List (ℕ × Checked))
      → run st ≡ continues st' checks
      → (map (λ p. p.0) checks ≡ st'.registry.borrowers) × All (IsCheckOf st) checks
  round_checks st st' checks e =
      let after = continues-IsAfter st st' checks e in
      let fits =
        check_all-PassFits rpc u256 abi build settings reserves_list
          (found_of st).registry.borrowers (found_of st).provider in
      (
        ap (map (λ p. p.0)) (sym after.pass)
            ∙ sym (append-nil (map (λ p. p.0) (pass_of st).checks))
            ∙ ap (λ l. map (λ p. p.0) (pass_of st).checks ++ l) (sym (fits.whole after.ended))
            ∙ fits.order
            ∙ ap (λ r. r.borrowers) (sym after.registry),
        subst (All (IsCheckOf st)) after.pass fits.checked,
      )

  -- A borrower that the registry has is checked.
  pub round_reaches :
      (st st' : BotState S W) (checks : List (ℕ × Checked))
      → run st ≡ continues st' checks
      → (borrower : ℕ) → In borrower st'.registry.borrowers
      → (c : Checked) × In (borrower, c) checks
        × ((s : S) × (c
              ≡ (check_and_liquidate u256 rpc.contracts abi build settings reserves_list borrower
                  s).0))
  round_reaches st st' checks e borrower i =
      let (names, checked) = round_checks st st' checks e in
      let (p, j, q) =
        In-map (λ p. p.0) checks borrower (subst (λ l. In borrower l) (sym names) i) in
      let (s, _, g) = In-All (IsCheckOf st) p checks j checked in
      (
        p.1,
        subst (λ b. In (b, p.1) checks) q j,
        (
          s,
          subst
              (λ b.
                p.1
                ≡ (check_and_liquidate u256 rpc.contracts abi build settings reserves_list b s).0)
              q g,
        ),
      )
