-- ===== src/Liquidator/Bot/Answered.antt =====
-- crates/liquidator/src/main.rs: the check where the contracts answer, and answer consistently.
use alpharouting.Prelude.{
  ℕ, ◌+◌, ◌*◌, ◌≤◌, ◌^◌, ◌<◌, ◌≡◌, ◌≢◌, ◌⊎◌, refl, sym, inl, inr, true, false, not, ◌&&◌, ◌||◌,
  none, some, Option-cases, Bool-cases, List, [], ◌∷◌, All, arith, length, leb, ◌==◌, if◌then◌else◌,
}
use alpharouting.Liquidator.Settings.{Settings}
use alpharouting.Liquidator.Uint256.{Uint256}
use alpharouting.Liquidator.Aave.{ReserveFlags, Build, health_factor_liquidation_threshold}
use alpharouting.Liquidator.Aave.Decode.{bitmap_of, bitmap_of-lt, decode-bitmap_of}
use alpharouting.Liquidator.Select.{ReserveBalance, LiquidationTarget, select_liquidation_target}
use alpharouting.Liquidator.Select.Choice.{
  IsRight, NoDebt, NoCollateral, select_liquidation_target-eq-none,
}
use alpharouting.Liquidator.Bot.{
  AccountData, UserReserveData, Liquidation, Contracts, Abi, Checked, no_pair, encode_swap_params,
  to_u128, read_balances, read_position, submit, liquidate, check_and_liquidate,
}
use alpharouting.Liquidator.Bot.Sends.{sent, target_of, send_lem, submit-AllSent}

to_u128-bitmap_of :
    (fs : List ReserveFlags) → length fs ≤ 64 → to_u128 (bitmap_of fs) ≡ bitmap_of fs
unfolding to_u128
to_u128-bitmap_of fs h = ground (arith, bitmap_of-lt 64 fs h)

-- The borrower's balances in the reserves that it borrows or uses as collateral, in their order.
pub positions : (ℕ → UserReserveData) → List ℕ → List ReserveFlags → List ReserveBalance
positions info [] fs = []
positions info (reserve ∷ reserves) [] = []
positions info (reserve ∷ reserves) (f ∷ fs) =
    let rest = positions info reserves fs in
    if f.borrowing || f.collateral
    then record {
      asset = reserve;
      debt = (info reserve).current_stable_debt + (info reserve).current_variable_debt;
      a_token = (info reserve).current_a_token_balance;
      is_collateral = f.collateral;
      is_borrowed = f.borrowing;
    }
      ∷ rest
    else rest

module _ {S : Type 0} (u256 : Uint256) (contracts : Contracts S) where
  -- The contracts answer every question about a borrower with the account, the flags of its reserves
  -- and its balances.
  pub record Answers (borrower : ℕ) (account : AccountData) (fs : List ReserveFlags)
      (info : ℕ → UserReserveData) : Type 0 where
    pub account_data : (s : S) → (contracts.get_user_account_data borrower s).0 ≡ some account
    pub configuration :
        (s : S) → (contracts.get_user_configuration borrower s).0 ≡ some (bitmap_of fs)
    pub reserve_data :
        (reserve : ℕ) (s : S)
        → (contracts.get_user_reserve_data reserve borrower s).0 ≡ some (info reserve)
    pub small :
        (reserve : ℕ)
        → ((info reserve).current_stable_debt + (info reserve).current_variable_debt) * 5000
          < 2 ^ 256

  module _ (borrower : ℕ) (account : AccountData) (fs : List ReserveFlags)
      (info : ℕ → UserReserveData) (answers : Answers borrower account fs info) where
    read_balances-positions :
        (reserves : List ℕ) (flags : List ReserveFlags) (s : S)
        → (read_balances u256 contracts borrower reserves flags s).0
          ≡ some (positions info reserves flags)
    unfolding read_balances positions
    read_balances-positions [] flags s = refl
    read_balances-positions (reserve ∷ reserves) [] s = refl
    read_balances-positions (reserve ∷ reserves) (flag ∷ flags) s =
        let d = info reserve in
        let s' = (contracts.get_user_reserve_data reserve borrower s).1 in
        let exact =
          u256.add_exact d.current_stable_debt d.current_variable_debt
            (omega (arith, answers.small reserve)) in
        elim (Bool-cases (not flag.borrowing && not flag.collateral)) [
          | inl skip ↦
              let unheld : (flag.borrowing || flag.collateral) ≡ false = ground (arith, skip) in
              rw (skip, read_balances, positions, unheld) (read_balances-positions reserves flags s)
          | inr held ↦
              let kept : (flag.borrowing || flag.collateral) ≡ true = ground (arith, held) in
              rw (
                held,
                read_balances,
                positions,
                kept,
                answers.reserve_data reserve s,
                read_balances-positions reserves flags s',
                exact,
              )
        ]

    positions-small :
        (reserves : List ℕ) (flags : List ReserveFlags)
        → All (λ b. b.debt * 5000 < 2 ^ 256) (positions info reserves flags)
    unfolding positions
    positions-small [] flags = tt
    positions-small (reserve ∷ reserves) [] = tt
    positions-small (reserve ∷ reserves) (flag ∷ flags) =
        elim (Bool-cases (flag.borrowing || flag.collateral)) [
          | inl kept ↦ rw (kept, positions) (answers.small reserve, positions-small reserves flags)
          | inr unheld ↦ rw (unheld, positions) (positions-small reserves flags)
        ]

    read_position-positions :
        (build : Build) (reserves_list : List ℕ) (s : S)
        → length fs ≡ length reserves_list
        → length fs ≤ 64
        → (read_position u256 contracts build reserves_list borrower s).0
          ≡ some (some (positions info reserves_list fs))
    unfolding read_position
    read_position-positions build reserves_list s same few =
        let s' = (contracts.get_user_configuration borrower s).1 in
        rw (
          answers.configuration s,
          read_position,
          to_u128-bitmap_of fs few,
          sym same,
          decode-bitmap_of build fs few,
          read_balances-positions reserves_list fs s',
        )

  submit-no_pair :
      (abi : Abi) (settings : Settings) (borrower : ℕ) (bs : List ReserveBalance) (s : S)
      → select_liquidation_target u256 bs ≡ none
      → (submit u256 contracts abi settings borrower bs s).0 ≡ no_pair
  unfolding submit
  submit-no_pair abi settings borrower bs s e = rw (e, submit)

  submit-sent :
      (abi : Abi) (settings : Settings) (borrower : ℕ) (bs : List ReserveBalance) (s : S)
      (t : LiquidationTarget) (fee : ℕ)
      → select_liquidation_target u256 bs ≡ some t
      → abi.uint24_from settings.sell_fee_bps ≡ some fee
      → (l : Liquidation) × (sent (submit u256 contracts abi settings borrower bs s).0 ≡ some l)
  unfolding submit encode_swap_params
  submit-sent abi settings borrower bs s t fee e f =
      let l : Liquidation = record {
        collateral_asset = t.collateral_asset;
        debt_asset = t.debt_asset;
        borrower = borrower;
        debt_amount = t.debt_to_cover;
        swap_params = abi.encode_params settings.sell_dex fee settings.min_profit;
      } in
      (l, rw (e, submit, encode_swap_params, f) (send_lem u256 contracts l s))

  -- How the check of a position that can be liquidated ends.
  abbrev pub EndsRightly : ℕ → List ReserveBalance → Checked → Type 0
  EndsRightly borrower bs out =
      ((out ≡ no_pair) × (NoDebt bs ⊎ NoCollateral bs))
      ⊎ ((l : Liquidation) × (sent out ≡ some l)
          × (l.borrower ≡ borrower)
          × IsRight bs (target_of l))

  submit-EndsRightly :
      (abi : Abi) (settings : Settings) (borrower : ℕ) (bs : List ReserveBalance) (s : S) (fee : ℕ)
      → All (λ b. b.debt * 5000 < 2 ^ 256) bs
      → abi.uint24_from settings.sell_fee_bps ≡ some fee
      → EndsRightly borrower bs (submit u256 contracts abi settings borrower bs s).0
  submit-EndsRightly abi settings borrower bs s fee small f =
      elim (Option-cases (select_liquidation_target u256 bs)) [
        | inl p ↦
            let (why, _) = select_liquidation_target-eq-none u256 bs small in
            inl (submit-no_pair abi settings borrower bs s p, why p)
        | inr (t, p) ↦
            let (l, e) = submit-sent abi settings borrower bs s t fee p f in
            let right = submit-AllSent u256 contracts abi settings borrower bs s small l e in
            inr (l, e, right.0, right.1)
      ]

  -- For contracts that answer every question about a borrower, that report some debt and a health
  -- factor below 10 ^ 18, and that have at most 64 reserves: the check sends a liquidation of that
  -- borrower, the right one for its balances, unless it has no borrowed reserve with a debt of 2 or
  -- more or no collateral with a balance, and then it sends none. The pool fee of the settings is to
  -- fit 24 bits and five thousand times each debt 256 bits.
  pub check_and_liquidate-EndsRightly :
      (borrower : ℕ) (account : AccountData) (fs : List ReserveFlags) (info : ℕ → UserReserveData)
      → Answers borrower account fs info
      → (abi : Abi) (build : Build) (settings : Settings) (reserves_list : List ℕ) (fee : ℕ) (s : S)
      → length fs ≡ length reserves_list
      → length fs ≤ 64
      → abi.uint24_from settings.sell_fee_bps ≡ some fee
      → account.total_debt_base ≢ 0
      → account.health_factor < 10 ^ 18
      → EndsRightly borrower
          (positions info reserves_list fs)
          (check_and_liquidate u256 contracts abi build settings reserves_list borrower s).0
  unfolding check_and_liquidate liquidate
  check_and_liquidate-EndsRightly borrower account fs info answers abi build settings reserves_list
        fee s same few f owes unhealthy =
      let s' = (contracts.get_user_account_data borrower s).1 in
      let bs = positions info reserves_list fs in
      let some_debt : (account.total_debt_base == 0) ≡ false = ground (arith, owes) in
      let below : leb health_factor_liquidation_threshold account.health_factor ≡ false =
        ground (arith, unhealthy) in
      let position =
        read_position-positions borrower account fs info answers build reserves_list s' same few in
      let s'' = (read_position u256 contracts build reserves_list borrower s').1 in
      rw (answers.account_data s, check_and_liquidate, some_debt, below, liquidate, position)
        (submit-EndsRightly abi settings borrower bs s'' fee
          (positions-small borrower account fs info answers reserves_list fs) f)
