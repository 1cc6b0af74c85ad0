-- ===== src/Liquidator/Bot/Safety.antt =====
-- crates/liquidator/src/main.rs: when a liquidation is sent.
use alpharouting.Prelude.{ℕ, ◌^◌, ◌<◌, ◌≡◌, ◌≢◌, some, List}
use alpharouting.Liquidator.Settings.{Settings}
use alpharouting.Liquidator.Uint256.{Uint256}
use alpharouting.Liquidator.Select.{ReserveBalance}
use alpharouting.Liquidator.Select.Choice.{IsRight}
use alpharouting.Liquidator.Bot.{AccountData, Liquidation, Contracts}
use alpharouting.Liquidator.Bot.Reads.{Position}
use alpharouting.Liquidator.Bot.Sends.{target_of}

module _ {S : Type 0} (contracts : Contracts S) where
  -- A liquidation that the state of the account calls for.
  pub record IsJustified (reserves_list : List ℕ) (borrower : ℕ) (s : S) (l : Liquidation)
      : Type 0 where
    pub account : AccountData
    pub answer : (contracts.get_user_account_data borrower s).0 ≡ some account
    pub owes : account.total_debt_base ≢ 0
    pub unhealthy : account.health_factor < 10 ^ 18
    pub of : l.borrower ≡ borrower
    pub balances : List ReserveBalance
    pub position :
        Position contracts reserves_list borrower
          (contracts.get_user_account_data borrower s).1
          balances
    pub right : IsRight balances (target_of l)
