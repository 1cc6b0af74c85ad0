-- ===== src/Metrics.antt =====
-- crates/workers/src/metrics.rs: the worker pool's counters and moving averages. The atomics and the
-- mutexes are the fields themselves; each observation is one step, under one of the two mutexes.
pub mod Averages
mod Tests
use alpharouting.Prelude.{ℕ, ◌+◌, ◌%◌, ◌^◌, ◌==◌, if◌then◌else◌}
use alpharouting.Float64.{Float64}

pub record PoolMetrics (F : Type 0) : Type 0 where
  pub queue_depth : ℕ
  pub active_workers : ℕ
  pub completed_total : ℕ
  pub deadline_dropped : ℕ
  pub queue_rejected : ℕ
  pub avg_wait_ms : F
  pub avg_run_ms : F

pub record AvgAccum (F : Type 0) : Type 0 where
  pub value : F
  pub samples : ℕ

pub record MetricsState (F : Type 0) : Type 0 where
  pub queue_depth : ℕ
  pub active_workers : ℕ
  pub completed_total : ℕ
  pub deadline_dropped : ℕ
  pub queue_rejected : ℕ
  pub wait_ms : AvgAccum F
  pub run_ms : AvgAccum F

module _ {F : Type 0} (float : Float64 F) where
  -- `AvgAccum::default`.
  pub default_accum : AvgAccum F
  default_accum = record { value = float.zero; samples = 0 }

  -- `ALPHA`, 0.1.
  abbrev pub alpha : F
  alpha = float.decimal 1 1

  -- The weighted mean of a new sample and the value so far.
  abbrev pub mix : F → F → F
  mix x value = float.add (float.mul alpha x) (float.mul (float.sub float.one alpha) value)

  pub observe : AvgAccum F → F → AvgAccum F
  observe a x = record {
    value = if a.samples == 0 then x else mix x a.value;
    samples = (a.samples + 1) % 2 ^ 64;
  }

  pub new : MetricsState F
  unfolding default_accum
  new = record {
    queue_depth = 0;
    active_workers = 0;
    completed_total = 0;
    deadline_dropped = 0;
    queue_rejected = 0;
    wait_ms = default_accum;
    run_ms = default_accum;
  }

  pub observe_wait : MetricsState F → F → MetricsState F
  unfolding observe
  observe_wait m ms = record m { wait_ms = observe m.wait_ms ms }

  pub observe_run : MetricsState F → F → MetricsState F
  unfolding observe
  observe_run m ms = record m { run_ms = observe m.run_ms ms }

pub snapshot : {F : Type 0} → MetricsState F → PoolMetrics F
snapshot m = record {
  queue_depth = m.queue_depth;
  active_workers = m.active_workers;
  completed_total = m.completed_total;
  deadline_dropped = m.deadline_dropped;
  queue_rejected = m.queue_rejected;
  avg_wait_ms = m.wait_ms.value;
  avg_run_ms = m.run_ms.value;
}
