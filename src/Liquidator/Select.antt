-- ===== src/Liquidator/Select.antt =====
-- crates/liquidator/src/select.rs: the choice of a debt reserve and a collateral reserve.
pub mod Maxima
pub mod Choice
mod Tests
use alpharouting.Prelude.{
  ℕ, Bool, ◌&&◌, Option, none, some, List, [], ◌∷◌, filter, ltb, leb, ◌==◌, if◌then◌else◌,
}
use alpharouting.Liquidator.{◌>>=◌}
use alpharouting.Liquidator.Uint256.{Uint256}

pub record ReserveBalance : Type 0 where
  pub asset : ℕ
  pub debt : ℕ
  pub a_token : ℕ
  pub is_collateral : Bool
  pub is_borrowed : Bool

pub record LiquidationTarget : Type 0 where
  pub collateral_asset : ℕ
  pub debt_asset : ℕ
  pub debt_to_cover : ℕ

abbrev pub close_factor_bps : ℕ
close_factor_bps = 5000

-- `Iterator::max_by_key`: of equal keys, the last.
pub max_from {ℓ} : {A : Type ℓ} → (A → ℕ) → A → List A → A
max_from key best [] = best
max_from key best (x ∷ xs) = max_from key (if leb (key best) (key x) then x else best) xs

pub max_by_key {ℓ} : {A : Type ℓ} → (A → ℕ) → List A → Option A
unfolding max_from
max_by_key key [] = none
max_by_key key (x ∷ xs) = some (max_from key x xs)

abbrev pub is_debt : ReserveBalance → Bool
is_debt r = r.is_borrowed && ltb 0 r.debt

abbrev pub is_seizable : ReserveBalance → Bool
is_seizable r = r.is_collateral && ltb 0 r.a_token

unfoldable pub select_liquidation_target : Uint256 → List ReserveBalance → Option LiquidationTarget
unfolding max_by_key
select_liquidation_target u256 reserves = do
  debt_reserve ← max_by_key (λ r. r.debt) (filter is_debt reserves)
  collateral_reserve ← max_by_key (λ r. r.a_token) (filter is_seizable reserves)
  let debt_to_cover = u256.div (u256.mul debt_reserve.debt close_factor_bps) 10000
  if debt_to_cover == 0
      then none
      else some (record {
        collateral_asset = collateral_reserve.asset;
        debt_asset = debt_reserve.asset;
        debt_to_cover = debt_to_cover;
      })
