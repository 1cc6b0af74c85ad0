-- ===== src/Liquidator/Bot/Sends.antt =====
-- crates/liquidator/src/main.rs: the transaction that is sent, and what it says.
use alpharouting.Prelude.{
  ℕ, ◌*◌, ◌^◌, ◌<◌, ◌≡◌, refl, sym, ◌∙◌, subst, inl, inr, Option, none, some, Option-cases,
  Bool-cases, List, All,
}
use alpharouting.Text.{Text}
use alpharouting.Liquidator.Settings.{Settings}
use alpharouting.Liquidator.Uint256.{Uint256}
use alpharouting.Liquidator.Select.{ReserveBalance, LiquidationTarget, select_liquidation_target}
use alpharouting.Liquidator.Select.Choice.{IsRight, select_liquidation_target-IsRight}
use alpharouting.Liquidator.Bot.{
  Liquidation, Contracts, Abi, Checked, no_debt, healthy, no_pair, liquidated, failed, rejected,
  unconfirmed, panicked, encode_swap_params, send, submit,
}

-- The transaction that was sent, whatever became of it.
abbrev pub sent : Checked → Option Liquidation
sent (liquidated l) = some l
sent (rejected l) = some l
sent (unconfirmed l) = some l
sent no_debt = none
sent healthy = none
sent no_pair = none
sent failed = none
sent panicked = none

abbrev pub target_of : Liquidation → LiquidationTarget
target_of l = record {
  collateral_asset = l.collateral_asset;
  debt_asset = l.debt_asset;
  debt_to_cover = l.debt_amount;
}

-- Whatever was sent has the property.
abbrev pub AllSent : (Liquidation → Type 0) → Checked → Type 0
AllSent P c = (l : Liquidation) → sent c ≡ some l → P l

pub none≢some : (l : Liquidation) → ◌≡◌ {A = Option Liquidation} none (some l) → ⊥
none≢some l e = cc

pub some_eq : {k l : Liquidation} → ◌≡◌ {A = Option Liquidation} (some k) (some l) → k ≡ l
some_eq e = cc

module _ {S : Type 0} (u256 : Uint256) (contracts : Contracts S) where
  pub send_lem : (l : Liquidation) (s : S) → sent (send u256 contracts l s).0 ≡ some l
  unfolding send
  send_lem l s = elim (Option-cases (contracts.execute_liquidation l s).0) [
    | inl p ↦ rw (sent, p)
    | inr (hash, p) ↦
        elim (Bool-cases (contracts.get_receipt hash (contracts.execute_liquidation l s).1).0) [
          | inl q ↦ rw (sent, p, q)
          | inr q ↦ rw (sent, p, q)
        ]
  ]

  pub submit-AllSent :
      (abi : Abi) (settings : Settings) (borrower : ℕ) (bs : List ReserveBalance) (s : S)
      → All (λ b. b.debt * 5000 < 2 ^ 256) bs
      → AllSent
          (λ l. (l.borrower ≡ borrower) × IsRight bs (target_of l))
          (submit u256 contracts abi settings borrower bs s).0
  unfolding submit
  submit-AllSent abi settings borrower bs s small =
      elim (Option-cases (select_liquidation_target u256 bs)) [
        | inl p ↦ rw (p, submit) (λ l e. absurd (none≢some l e))
        | inr (t, p) ↦
            let right = select_liquidation_target-IsRight u256 bs small t p in
            elim (Option-cases (
              encode_swap_params abi settings.sell_dex settings.sell_fee_bps settings.min_profit)) [
                | inl q ↦ rw (p, submit, q) (λ l e. absurd (none≢some l e))
                | inr (params, q) ↦
                    rw (p, submit, q)
                      (λ l e. sent_right params t right l (sym (send_lem (filled params t) s) ∙ e))
              ]
      ]
    where
      filled : Text → LiquidationTarget → Liquidation
      filled params t = record {
        collateral_asset = t.collateral_asset;
        debt_asset = t.debt_asset;
        borrower = borrower;
        debt_amount = t.debt_to_cover;
        swap_params = params;
      }

      sent_right :
          (params : Text) (t : LiquidationTarget)
          → IsRight bs t
          → (l : Liquidation) → ◌≡◌ {A = Option Liquidation} (some (filled params t)) (some l)
          → (l.borrower ≡ borrower) × IsRight bs (target_of l)
      sent_right params t right l e =
          subst (λ k. (k.borrower ≡ borrower) × IsRight bs (target_of k)) (some_eq e) (refl, right)
