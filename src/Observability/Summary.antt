-- ===== src/Observability/Summary.antt =====
-- crates/observability/src/summary.rs.
pub mod Message
mod Tests
use alpharouting.Prelude.{ℕ, [], ◌∷◌, ◌==◌, if◌then◌else◌}
use alpharouting.Text.{Text, codes, concat}
use alpharouting.Text.Decimal.{decimal}
use alpharouting.Float64.{Float64}

pub record ReplaySummary (F : Type 0) : Type 0 where
  pub total : ℕ
  pub sim_passed : ℕ
  pub sim_failed : ℕ
  pub success : ℕ
  pub reverted : ℕ
  pub gas_rejected : ℕ
  pub mean_latency_ms : F
  pub total_realized_profit_usdc : F

unfoldable pub success_rate : {F : Type 0} → Float64 F → ReplaySummary F → F
success_rate float s =
    if s.total == 0 then float.zero else float.div (float.of_int s.success) (float.of_int s.total)

-- `format!` with `fixed` for `{:.n}` of an `f64`, which the standard library writes.
pub render_for_telegram : {F : Type 0} → Float64 F → (ℕ → F → Text) → ReplaySummary F → Text
unfolding success_rate
render_for_telegram float fixed s = concat (
    codes "<b>Execution Observability</b>\nEvents: <code>"
    ∷ decimal s.total
    ∷ codes "</code>\nSim passed: <code>"
    ∷ decimal s.sim_passed
    ∷ codes "</code>  Sim failed: <code>"
    ∷ decimal s.sim_failed
    ∷ codes "</code>\nGas-gate rejected: <code>"
    ∷ decimal s.gas_rejected
    ∷ codes "</code>\nBroadcast - Success: <code>"
    ∷ decimal s.success
    ∷ codes "</code>  Reverted: <code>"
    ∷ decimal s.reverted
    ∷ codes "</code>\nSuccess rate: <code>"
    ∷ fixed 2 (float.mul (success_rate float s) (float.decimal 100 0))
    ∷ codes "%</code>\nMean latency: <code>"
    ∷ fixed 1 s.mean_latency_ms
    ∷ codes " ms</code>\nRealised profit: <code>$"
    ∷ fixed 2 s.total_realized_profit_usdc
    ∷ codes "</code>"
    ∷ [])
