-- ===== src/Observability/Buffer/Tests.antt =====
-- The unit tests of crates/observability/src/buffer.rs, and the theorems at concrete inputs. The
-- floats of the tests are whole numbers.
use alpharouting.Prelude.{
  ℕ, ◌+◌, ◌/◌, ◌^◌, ◌≡◌, ◌≤◌, refl, subst, All, ◌<◌, Option, none, some, List, [], ◌∷◌, length,
  foldl, filter, take_last, max, arith, ◌==◌, if◌then◌else◌,
}
use alpharouting.Text.{Text}
use alpharouting.Float64.Samples.{whole}
use alpharouting.Observability.{ExecutionEvent, EventOutcome, new_detection, outcome_eq}
use alpharouting.Observability.Buffer.{
  ReplayBuffer, new, record_event, by_outcome, summary, export_jsonl,
}
use alpharouting.Observability.Buffer.Eviction.{record_all, record_all-events}
use alpharouting.Observability.Buffer.Queries.{by_outcome-record_all}
use alpharouting.Observability.Buffer.Totals.{summary_totals, number_of, total_latency, profits}
use alpharouting.Observability.Buffer.Export.{lines, serialized, lines-export_jsonl, OneLine}

abbrev Event : Type 0
Event = ExecutionEvent ℕ ℕ

-- `mk` of the source's tests.
mk : EventOutcome → Option Text → ℕ → ℕ → Event
unfolding new_detection
mk outcome borrower profit latency = record (new_detection 0 1 profit) {
  outcome = outcome;
  borrower = borrower;
  actual_profit_usdc = some profit;
  latency_ms = latency;
}

abbrev recorded : List Event
recorded =
    mk EventOutcome.success (some (b'A' ∷ [])) 1 10
    ∷ mk EventOutcome.sim_failed none 0 20
    ∷ mk EventOutcome.success (some (b'a' ∷ [])) 2 30
    ∷ []

buffer : ReplayBuffer Event
buffer = record_all (new 2) recorded

buffer_caps_at_capacity : length buffer.events ≡ 2
unfolding buffer record_all record_event new
buffer_caps_at_capacity = refl

summary_of_buffer : (summary whole buffer).total_realized_profit_usdc ≡ 2
unfolding buffer record_all record_event new summary mk outcome_eq
summary_of_buffer = refl

record_all-events_example : (record_all (new 2) recorded).events ≡ take_last (max 2 1) recorded
record_all-events_example = record_all-events 2 recorded

by_outcome-record_all_example :
    by_outcome (record_all (new 2) recorded) EventOutcome.success 1
    ≡ take_last 1
        (filter (λ e. outcome_eq e.outcome EventOutcome.success) (take_last (max 2 1) recorded))
by_outcome-record_all_example = by_outcome-record_all 2 1 EventOutcome.success recorded

abbrev three : ReplayBuffer Event
three = record { events = recorded; capacity = 3 }

three_latencies : All (λ e. e.latency_ms < 2 ^ 64) recorded
unfolding mk
three_latencies = omega arith

summary_totals_example :
    let s = summary whole three in
    (s.total ≡ 3)
    × (s.sim_passed ≡ number_of EventOutcome.sim_passed recorded)
    × (s.sim_failed ≡ number_of EventOutcome.sim_failed recorded)
    × (s.success ≡ number_of EventOutcome.success recorded)
    × (s.reverted ≡ number_of EventOutcome.reverted recorded)
    × (s.gas_rejected ≡ number_of EventOutcome.gate_rejected recorded)
    × (s.sim_passed + s.sim_failed + s.success + s.reverted + s.gas_rejected ≤ s.total)
    × (s.mean_latency_ms ≡ (if 3 == 0 then 0 else total_latency recorded / 3))
    × (s.total_realized_profit_usdc ≡ foldl whole.add 0 (profits recorded))
summary_totals_example = summary_totals whole three (omega arith) three_latencies

-- A serialiser that fails on an event without a borrower.
written : Option Text → Option Text
written none = none
written (some b) = some (b'x' ∷ [])

written-OneLine : (o : Option Text) (line : Text) → written o ≡ some line → OneLine line
unfolding written
written-OneLine none line h = cc
written-OneLine (some b) line h =
    let e : b'x' ∷ [] ≡ line = cc in subst OneLine e ((λ q. omega arith), tt)

serialize : Event → Option Text
serialize e = written e.borrower

serialize-OneLine : (e : Event) (line : Text) → serialize e ≡ some line → OneLine line
unfolding serialize
serialize-OneLine e line h = written-OneLine e.borrower line h

lines-export_jsonl_example : lines (export_jsonl serialize three) ≡ serialized serialize recorded
lines-export_jsonl_example = lines-export_jsonl serialize three serialize-OneLine
