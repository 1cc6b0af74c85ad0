-- ===== src/Observability/Buffer.antt =====
-- crates/observability/src/buffer.rs: the replay buffer. The mutex makes each call one step; the
-- `VecDeque` is the list of its events, oldest first.
pub mod Eviction
pub mod Queries
pub mod Totals
pub mod Export
mod Tests
use alpharouting.Prelude.{
  ℕ, ◌+◌, ◌-◌, ◌%◌, ◌^◌, Bool, false, Option, none, some, List, [], ◌∷◌, ◌++◌, reverse, length,
  take, drop, filter, max, ◌==◌, if◌then◌else◌,
}
use alpharouting.Text.{Text, text_eq, to_ascii_lowercase}
use alpharouting.Float64.{Float64}
use alpharouting.Observability.{
  ExecutionEvent, EventOutcome, sim_passed, sim_failed, gate_rejected, success, reverted,
  outcome_eq,
}
use alpharouting.Observability.Summary.{ReplaySummary}

abbrev pub default_capacity : ℕ
default_capacity = 10000

-- What `record`, `summary` and the queries see of an event is its fields; the element type is left
-- open where they see none.
pub record ReplayBuffer (E : Type 0) : Type 0 where
  pub events : List E
  pub capacity : ℕ

module _ {E : Type 0} where
  unfoldable pub new : ℕ → ReplayBuffer E
  new capacity = record { events = []; capacity = max capacity 1 }

  pub default : ReplayBuffer E
  unfolding new
  default = new default_capacity

  unfoldable pub len : ReplayBuffer E → ℕ
  len b = length b.events

  pub is_empty : ReplayBuffer E → Bool
  is_empty b = length b.events == 0

  -- `VecDeque::pop_front`, its result dropped.
  abbrev pub pop_front : List E → List E
  pop_front [] = []
  pop_front (e ∷ es) = es

  unfoldable pub record_event : ReplayBuffer E → E → ReplayBuffer E
  record_event b event =
      let q = if length b.events == b.capacity then pop_front b.events else b.events in
      record b { events = q ++ event ∷ [] }

  pub last_n : ReplayBuffer E → ℕ → List E
  last_n b n = let start = length b.events - n in drop start b.events

  -- The shape of both filtering queries: `iter().rev().filter(..).take(limit)`, turned round.
  pub newest_matching : (E → Bool) → ℕ → List E → List E
  newest_matching test limit events = reverse (take limit (filter test (reverse events)))

-- `as_deref().map(..).unwrap_or(false)`.
pub borrower_is : Text → Option Text → Bool
borrower_is needle none = false
borrower_is needle (some b) = text_eq (to_ascii_lowercase b) needle

module _ {F Time : Type 0} where
  pub by_outcome :
      ReplayBuffer (ExecutionEvent F Time) → EventOutcome → ℕ → List (ExecutionEvent F Time)
  unfolding newest_matching
  by_outcome b outcome limit =
      if limit == 0 then [] else newest_matching (λ e. outcome_eq e.outcome outcome) limit b.events

  pub by_borrower : ReplayBuffer (ExecutionEvent F Time) → Text → ℕ → List (ExecutionEvent F Time)
  unfolding newest_matching
  by_borrower b borrower limit =
      let needle = to_ascii_lowercase borrower in
      if limit == 0 then [] else newest_matching (λ e. borrower_is needle e.borrower) limit b.events

-- The variables of the loop of `summary`: `usize` counters, a `u128` sum and an `f64` sum.
pub record Tally (F : Type 0) : Type 0 where
  pub sim_passed : ℕ
  pub sim_failed : ℕ
  pub success : ℕ
  pub reverted : ℕ
  pub gas_rejected : ℕ
  pub latency_sum : ℕ
  pub realized : F

module _ {F : Type 0} where
  -- The first `match` of the loop's body.
  pub count_outcome : EventOutcome → Tally F → Tally F
  count_outcome EventOutcome.sim_passed t = record t { sim_passed = (t.sim_passed + 1) % 2 ^ 64 }
  count_outcome EventOutcome.sim_failed t = record t { sim_failed = (t.sim_failed + 1) % 2 ^ 64 }
  count_outcome EventOutcome.success t = record t { success = (t.success + 1) % 2 ^ 64 }
  count_outcome EventOutcome.reverted t = record t { reverted = (t.reverted + 1) % 2 ^ 64 }
  count_outcome EventOutcome.gate_rejected t = record t {
    gas_rejected = (t.gas_rejected + 1) % 2 ^ 64;
  }
  count_outcome EventOutcome.pending t = t
  count_outcome EventOutcome.broadcast t = t
  count_outcome EventOutcome.error t = t

module _ {F : Type 0} (float : Float64 F) where
  -- `if matches!(outcome, Success) { if let Some(p) = profit { realized += p } }`.
  pub add_profit : EventOutcome → Option F → F → F
  add_profit EventOutcome.success (some p) realized = float.add realized p
  add_profit EventOutcome.success none realized = realized
  add_profit _ profit realized = realized

  pub tally_zero : Tally F
  tally_zero = record {
    sim_passed = 0;
    sim_failed = 0;
    success = 0;
    reverted = 0;
    gas_rejected = 0;
    latency_sum = 0;
    realized = float.zero;
  }

module _ {F Time : Type 0} (float : Float64 F) where
  pub tally_event : Tally F → ExecutionEvent F Time → Tally F
  unfolding count_outcome add_profit
  tally_event t e =
      let counted = count_outcome e.outcome t in
      record counted {
        latency_sum = (counted.latency_sum + e.latency_ms) % 2 ^ 128;
        realized = add_profit float e.outcome e.actual_profit_usdc counted.realized;
      }

  pub tally : Tally F → List (ExecutionEvent F Time) → Tally F
  unfolding tally_event
  tally t [] = t
  tally t (e ∷ es) = tally (tally_event t e) es

  unfoldable pub summary : ReplayBuffer (ExecutionEvent F Time) → ReplaySummary F
  unfolding tally tally_zero
  summary b =
      let total = length b.events in
      let t = tally (tally_zero float) b.events in
      record {
        total = total;
        sim_passed = t.sim_passed;
        sim_failed = t.sim_failed;
        success = t.success;
        reverted = t.reverted;
        gas_rejected = t.gas_rejected;
        mean_latency_ms =
            if total == 0
            then float.zero
            else float.div (float.of_int t.latency_sum) (float.of_int total);
        total_realized_profit_usdc = t.realized;
      }

-- `export_jsonl`, on `serde_json::to_string` as `serialize`; a failure is logged and skipped.
module _ {E : Type 0} (serialize : E → Option Text) where
  pub export_events : List E → Text
  export_events [] = []
  export_events (e ∷ es) = elim (serialize e) [
    | some line ↦ line ++ b'\n' ∷ export_events es
    | none ↦ export_events es
  ]

  pub export_jsonl : ReplayBuffer E → Text
  unfolding export_events
  export_jsonl b = export_events b.events
