-- ===== src/Metrics/Tests.antt =====
-- The metrics of crates/workers/src/metrics.rs at concrete inputs. The floats are whole numbers in
-- hundredths.
use alpharouting.Prelude.{ℕ, ◌+◌, ◌-◌, ◌*◌, ◌/◌, ◌^◌, ◌≡◌, refl, List, [], ◌∷◌, arith}
use alpharouting.Float64.{Float64}
use alpharouting.Metrics.{new, observe_wait, observe_run, snapshot}
use alpharouting.Metrics.Averages.{
  Observation, wait, run, observe_all, average_of, waits, runs, snapshot-observe_all,
}

abbrev hundredths : Float64 ℕ
hundredths = record {
  zero = 0;
  one = 100;
  decimal = λ n k. n * 100 / 10 ^ k;
  of_int = λ n. n * 100;
  add = λ a b. a + b;
  sub = λ a b. a - b;
  mul = λ a b. a * b / 100;
  div = λ a b. a * 100 / b;
}

abbrev observed : List (Observation ℕ)
observed = wait 1000 ∷ run 500 ∷ wait 2000 ∷ []

-- Waits of 10.00 and 20.00 average to 11.00.
first_sample_counts_in_full :
    (snapshot (observe_all hundredths (new hundredths) observed)).avg_wait_ms ≡ 1100
unfolding snapshot observe_all new observe_wait observe_run
first_sample_counts_in_full = refl

snapshot-observe_all_example :
    snapshot (observe_all hundredths (new hundredths) observed) ≡ record {
      queue_depth = 0;
      active_workers = 0;
      completed_total = 0;
      deadline_dropped = 0;
      queue_rejected = 0;
      avg_wait_ms = average_of hundredths (waits observed);
      avg_run_ms = average_of hundredths (runs observed);
    }
snapshot-observe_all_example = snapshot-observe_all hundredths observed (omega arith)
