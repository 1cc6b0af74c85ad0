-- ===== src/Observability.antt =====
-- crates/observability/src/lib.rs: the events of the execution pipeline. `F` is `f64`, and `Time`
-- is chrono's `DateTime<Utc>`.
pub mod Buffer
pub mod Summary
use alpharouting.Prelude.{ℕ, Bool, Option, none, some, ◌==◌}
use alpharouting.Text.{Text}

pub data EventKind : Type 0 where
  detection simulation gas_gate broadcast receipt : EventKind

pub data EventOutcome : Type 0 where
  pending sim_passed sim_failed gate_rejected broadcast success reverted error : EventOutcome

pub record ExecutionEvent (F Time : Type 0) : Type 0 where
  pub timestamp : Time
  pub block_number : ℕ
  pub kind : EventKind
  pub borrower : Option Text
  pub route_id : Option Text
  pub expected_profit_usdc : F
  pub actual_profit_usdc : Option F
  pub gas_estimate : Option ℕ
  pub gas_used : Option ℕ
  pub gas_cost_usdc : Option F
  pub sim_confidence : Option F
  pub inclusion_probability : Option F
  pub builder : Option Text
  pub tx_hash : Option Text
  pub outcome : EventOutcome
  pub latency_ms : ℕ
  pub reason : Option Text

-- The clock's reading, `Utc::now()`, is an argument.
unfoldable pub new_detection : {F Time : Type 0} → Time → ℕ → F → ExecutionEvent F Time
new_detection now block_number expected_profit_usdc = record {
  timestamp = now;
  block_number = block_number;
  kind = EventKind.detection;
  borrower = none;
  route_id = none;
  expected_profit_usdc = expected_profit_usdc;
  actual_profit_usdc = none;
  gas_estimate = none;
  gas_used = none;
  gas_cost_usdc = none;
  sim_confidence = none;
  inclusion_probability = none;
  builder = none;
  tx_hash = none;
  outcome = EventOutcome.pending;
  latency_ms = 0;
  reason = none;
}

-- The place of an outcome in its enum, by which the derived `==` compares.
unfoldable pub discriminant : EventOutcome → ℕ
discriminant pending = 0
discriminant sim_passed = 1
discriminant sim_failed = 2
discriminant gate_rejected = 3
discriminant EventOutcome.broadcast = 4
discriminant success = 5
discriminant reverted = 6
discriminant error = 7

-- `PartialEq` of `EventOutcome`.
unfoldable pub outcome_eq : EventOutcome → EventOutcome → Bool
unfolding discriminant
outcome_eq a b = discriminant a == discriminant b
