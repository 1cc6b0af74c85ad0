-- ===== src/Liquidator/Main/Checks.antt =====
-- crates/liquidator/src/main.rs: a pass over the borrowers checks each, in order, whatever the
-- checks come to.
use alpharouting.Prelude.{
  ℕ, ◌≡◌, refl, ap, inl, inr, true, Bool-cases, List, [], ◌∷◌, ◌++◌, map, All, All-map,
}
use alpharouting.Liquidator.Uint256.{Uint256}
use alpharouting.Liquidator.Aave.{Build}
use alpharouting.Liquidator.Settings.{Settings}
use alpharouting.Liquidator.Bot.{Abi, Checked, check_and_liquidate}
use alpharouting.Liquidator.Main.{Rpc, Pass, is_panic, check_all}

module _ {S : Type 0} (rpc : Rpc S) (u256 : Uint256) (abi : Abi) (build : Build)
    (settings : Settings) (reserves_list : List ℕ) where
  -- In a pass over the borrowers that begins in the first state, it is the borrower's turn in the
  -- second one: the state that the checks of those before it have left.
  pub data Turn : List ℕ → S → ℕ → S → Type 0 where
    now : {borrower : ℕ} {borrowers : List ℕ} {s : S} → Turn (borrower ∷ borrowers) s borrower s
    later :
        {before borrower : ℕ} {borrowers : List ℕ} {s t : S}
        → Turn borrowers
            (check_and_liquidate u256 rpc.contracts abi build settings reserves_list before s).1
            borrower
            t
        → Turn (before ∷ borrowers) s borrower t

  -- The outcome is that of the code's check of the borrower, when it is its turn.
  abbrev pub IsCheck : List ℕ → S → ℕ × Checked → Type 0
  IsCheck borrowers start (borrower, c) =
      (s : S) × Turn borrowers start borrower s
      × (c ≡ (check_and_liquidate u256 rpc.contracts abi build settings reserves_list borrower s).0)

  pub record PassFits (borrowers : List ℕ) (start : S) (pass : Pass S) : Type 0 where
    pub rest : List ℕ
    pub order : map (λ p. p.0) pass.checks ++ rest ≡ borrowers
    pub whole : pass.completed ≡ true → rest ≡ []
    pub checked : All (IsCheck borrowers start) pass.checks

  pub check_all-PassFits :
      (borrowers : List ℕ) (s : S)
      → PassFits borrowers s (check_all rpc u256 abi build settings reserves_list borrowers s)
  unfolding check_all
  check_all-PassFits [] s = record { rest = []; order = refl; whole = λ e. refl; checked = tt }
  check_all-PassFits (borrower ∷ borrowers) s =
      let (c, s') =
        check_and_liquidate u256 rpc.contracts abi build settings reserves_list borrower s in
      elim (Bool-cases (is_panic c)) [
        | inl p ↦
            rw (p, check_all)
              (record {
                rest = borrowers;
                order = refl;
                whole = λ e. cc;
                checked = ((s, Turn.now, refl), tt);
              })
        | inr p ↦
            let later = check_all-PassFits borrowers s' in
            rw (p, check_all)
              (record {
                rest = later.rest;
                order = ap (λ l. borrower ∷ l) later.order;
                whole = later.whole;
                checked = (
                  (s, Turn.now, refl),
                  All-map (IsCheck borrowers s') (IsCheck (borrower ∷ borrowers) s)
                      (check_all rpc u256 abi build settings reserves_list borrowers s').checks
                      (λ x (t, turn, e). (t, Turn.later turn, e)) later.checked,
                );
              })
      ]
