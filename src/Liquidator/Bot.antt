-- ===== src/Liquidator/Bot.antt =====
-- crates/liquidator/src/main.rs: one borrower's check. The contracts behind the RPC provider are a
-- parameter whose state is threaded through the calls; any call may fail.
pub mod Reads
pub mod Sends
pub mod Speaks
pub mod Safety
pub mod Answered
mod Tests
use alpharouting.Prelude.{
  ℕ, ◌+◌, ◌-◌, ◌^◌, Bool, true, false, not, ◌&&◌, Option, none, some, List, [], ◌∷◌, length, ltb,
  leb, ◌==◌, if◌then◌else◌,
}
use alpharouting.Text.{Text}
use alpharouting.Liquidator.Uint256.{Uint256}
use alpharouting.Liquidator.Settings.{Settings}
use alpharouting.Liquidator.Aave.{
  health_factor_liquidation_threshold, ReserveFlags, Build, decode_user_configuration,
}
use alpharouting.Liquidator.Select.{ReserveBalance, LiquidationTarget, select_liquidation_target}

-- What `getUserAccountData` and `getUserReserveData` return, as far as the code reads it.
pub record AccountData : Type 0 where
  pub total_debt_base : ℕ
  pub health_factor : ℕ

pub record UserReserveData : Type 0 where
  pub current_a_token_balance : ℕ
  pub current_stable_debt : ℕ
  pub current_variable_debt : ℕ

-- The arguments of `executeLiquidation`.
pub record Liquidation : Type 0 where
  pub collateral_asset : ℕ
  pub debt_asset : ℕ
  pub borrower : ℕ
  pub debt_amount : ℕ
  pub swap_params : Text

-- The contracts: `execute_liquidation` sends the transaction and returns its hash, and `get_receipt`
-- says whether its receipt came.
pub record Contracts (S : Type 0) : Type 0 where
  pub get_user_account_data : ℕ → S → Option AccountData × S
  pub get_user_configuration : ℕ → S → Option ℕ × S
  pub get_user_reserve_data : ℕ → ℕ → S → Option UserReserveData × S
  pub execute_liquidation : Liquidation → S → Option ℕ × S
  pub get_receipt : ℕ → S → Bool × S

-- alloy's encoder: `Uint::<24, 1>::from`, which panics on a number that does not fit, and
-- `abi_encode_params`.
pub record Abi : Type 0 where
  pub uint24_from : ℕ → Option ℕ
  pub encode_params : Text → ℕ → ℕ → Text

pub data Checked : Type 0 where
  -- `Ok`: nothing to do, or the receipt has come.
  no_debt healthy no_pair : Checked
  liquidated : Liquidation → Checked
  -- `Err` of a read, of the transaction, of its receipt.
  failed : Checked
  rejected unconfirmed : Liquidation → Checked
  panicked : Checked

-- crates/liquidator/src/router.rs.
pub encode_swap_params : Abi → Text → ℕ → ℕ → Option Text
encode_swap_params abi sell_dex sell_fee_bps min_profit = elim (abi.uint24_from sell_fee_bps) [
  | none ↦ none
  | some sell_fee ↦ some (abi.encode_params sell_dex sell_fee min_profit)
]

-- `try_into().unwrap_or(u128::MAX)`.
pub to_u128 : ℕ → ℕ
to_u128 n = if ltb n (2 ^ 128) then n else 2 ^ 128 - 1

module _ {S : Type 0} (u256 : Uint256) (contracts : Contracts S) where
  abbrev pub balance_of : ℕ → ReserveFlags → UserReserveData → ReserveBalance
  balance_of reserve flag d = record {
    asset = reserve;
    debt = u256.add d.current_stable_debt d.current_variable_debt;
    a_token = d.current_a_token_balance;
    is_collateral = flag.collateral;
    is_borrowed = flag.borrowing;
  }

  -- The `for` loop over the reserves and their flags.
  pub read_balances : ℕ → List ℕ → List ReserveFlags → S → Option (List ReserveBalance) × S
  read_balances borrower [] flags s = (some [], s)
  read_balances borrower (reserve ∷ reserves) [] s = (some [], s)
  read_balances borrower (reserve ∷ reserves) (flag ∷ flags) s =
      elim (not flag.borrowing && not flag.collateral) [
        | true ↦ read_balances borrower reserves flags s
        | false ↦
            let (answer, s') = contracts.get_user_reserve_data reserve borrower s in
            elim answer [
              | none ↦ (none, s')
              | some d ↦
                  let (rest, s'') = read_balances borrower reserves flags s' in
                  elim rest [
                    | none ↦ (none, s'')
                    | some balances ↦ (some (balance_of reserve flag d ∷ balances), s'')
                  ]
            ]
      ]

  -- From the bitmap to the balances; a panic of the decoder is the inner `none`.
  pub read_position : Build → List ℕ → ℕ → S → Option (Option (List ReserveBalance)) × S
  unfolding to_u128 read_balances
  read_position build reserves_list borrower s =
      let (answer, s') = contracts.get_user_configuration borrower s in
      elim answer [
        | none ↦ (none, s')
        | some d ↦ elim (decode_user_configuration build (to_u128 d) (length reserves_list)) [
          | none ↦ (some none, s')
          | some flags ↦
              let (balances, s'') = read_balances borrower reserves_list flags s' in
              elim balances [ none ↦ (none, s'') | some bs ↦ (some (some bs), s'') ]
        ]
      ]

  -- The transaction and its receipt.
  pub send : Liquidation → S → Checked × S
  send l s =
      let (pending, s') = contracts.execute_liquidation l s in
      elim pending [
        | none ↦ (rejected l, s')
        | some hash ↦
            let (confirmed, s'') = contracts.get_receipt hash s' in
            if confirmed then (liquidated l, s'') else (unconfirmed l, s'')
      ]

  pub submit : Abi → Settings → ℕ → List ReserveBalance → S → Checked × S
  unfolding send encode_swap_params
  submit abi settings borrower balances s = elim (select_liquidation_target u256 balances) [
    | none ↦ (no_pair, s)
    | some target ↦
        elim (encode_swap_params abi settings.sell_dex settings.sell_fee_bps settings.min_profit) [
          | none ↦ (panicked, s)
          | some swap_params ↦
              send
                (record {
                  collateral_asset = target.collateral_asset;
                  debt_asset = target.debt_asset;
                  borrower = borrower;
                  debt_amount = target.debt_to_cover;
                  swap_params = swap_params;
                })
                s
        ]
  ]

  -- What follows the test of the health factor.
  pub liquidate : Abi → Build → Settings → List ℕ → ℕ → S → Checked × S
  unfolding read_position submit
  liquidate abi build settings reserves_list borrower s =
      let (position, s') = read_position build reserves_list borrower s in
      elim position [
        | none ↦ (failed, s')
        | some none ↦ (panicked, s')
        | some (some balances) ↦ submit abi settings borrower balances s'
      ]

  unfoldable pub check_and_liquidate : Abi → Build → Settings → List ℕ → ℕ → S → Checked × S
  unfolding liquidate
  check_and_liquidate abi build settings reserves_list borrower s =
      let (answer, s') = contracts.get_user_account_data borrower s in
      elim answer [
        | none ↦ (failed, s')
        | some account ↦
            if account.total_debt_base == 0
            then (no_debt, s')
            else (if leb health_factor_liquidation_threshold account.health_factor
                then (healthy, s')
                else liquidate abi build settings reserves_list borrower s')
      ]
