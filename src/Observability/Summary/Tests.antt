-- ===== src/Observability/Summary/Tests.antt =====
-- The unit tests of crates/observability/src/summary.rs, and the theorem at a concrete input.
use alpharouting.Prelude.{ℕ, ◌≡◌, refl, some, [], ◌∷◌}
use alpharouting.Text.{Text, codes}
use alpharouting.Text.Decimal.{decimal}
use alpharouting.Float64.Samples.{whole}
use alpharouting.Observability.Summary.{ReplaySummary, success_rate, render_for_telegram}
use alpharouting.Observability.Summary.Message.{
  counts_after, count_labels, counts_after-render_for_telegram,
}

abbrev fixed : ℕ → ℕ → Text
fixed places x = decimal x

abbrev sample : ℕ → ReplaySummary ℕ
sample latency = record {
  total = 100;
  sim_passed = 60;
  sim_failed = 20;
  success = 30;
  reverted = 10;
  gas_rejected = 5;
  mean_latency_ms = latency;
  total_realized_profit_usdc = 1234;
}

success_rate_handles_empty : success_rate whole (record (sample 250) { total = 0 }) ≡ 0
unfolding success_rate
success_rate_handles_empty = refl

render_for_telegram_includes_all_fields :
    render_for_telegram whole fixed (sample 250)
    ≡ codes
        "<b>Execution Observability</b>\nEvents: <code>100</code>\nSim passed: <code>60</code>  Sim failed: <code>20</code>\nGas-gate rejected: <code>5</code>\nBroadcast - Success: <code>30</code>  Reverted: <code>10</code>\nSuccess rate: <code>0%</code>\nMean latency: <code>250 ms</code>\nRealised profit: <code>$1234</code>"
unfolding render_for_telegram decimal
render_for_telegram_includes_all_fields = refl

counts_after-render_for_telegram_example :
    counts_after count_labels (render_for_telegram whole fixed (sample 250))
    ≡ some (100 ∷ 60 ∷ 20 ∷ 5 ∷ 30 ∷ 10 ∷ [])
counts_after-render_for_telegram_example = counts_after-render_for_telegram whole fixed (sample 250)
