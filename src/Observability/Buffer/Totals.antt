-- ===== src/Observability/Buffer/Totals.antt =====
-- crates/observability/src/buffer.rs: the loop of `summary` against plain counts.
use alpharouting.Prelude.{
  ℕ, suc, ◌+◌, ◌*◌, ◌^◌, ◌≤◌, ◌<◌, ◌≡◌, refl, ap, ◌∙◌, foldl, Option, none, some, List, [], ◌∷◌,
  ◌++◌, append-nil, sym, length, All, arith, ◌==◌, if◌then◌else◌,
}
use mathlib.Core.List.{foldl-append}
use alpharouting.Float64.{Float64}
use alpharouting.Observability.{ExecutionEvent, EventOutcome, outcome_eq}
use alpharouting.Observability.Buffer.{
  ReplayBuffer, Tally, add_profit, tally_event, tally, tally_zero, summary,
}

-- The profit of a successful event, if it names one.
abbrev pub profit_of : {F : Type 0} → EventOutcome → Option F → List F
profit_of EventOutcome.success (some p) = p ∷ []
profit_of EventOutcome.success none = []
profit_of _ p = []

module _ {F Time : Type 0} where
  abbrev pub number_of : EventOutcome → List (ExecutionEvent F Time) → ℕ
  number_of o [] = 0
  number_of o (e ∷ es) = (if outcome_eq e.outcome o then 1 else 0) + number_of o es

  abbrev pub total_latency : List (ExecutionEvent F Time) → ℕ
  total_latency [] = 0
  total_latency (e ∷ es) = e.latency_ms + total_latency es

  -- What the successful events say that they earned, in order.
  abbrev pub profits : List (ExecutionEvent F Time) → List F
  profits [] = []
  profits (e ∷ es) = profit_of e.outcome e.actual_profit_usdc ++ profits es

-- No counter wraps round in the next `n` events, nor the sum of latencies by `more`.
record Fits {F : Type 0} (t : Tally F) (n more : ℕ) : Type 0 where
  sim_passed : t.sim_passed + n < 2 ^ 64
  sim_failed : t.sim_failed + n < 2 ^ 64
  success : t.success + n < 2 ^ 64
  reverted : t.reverted + n < 2 ^ 64
  gas_rejected : t.gas_rejected + n < 2 ^ 64
  latency_sum : t.latency_sum + more < 2 ^ 128

module _ {F Time : Type 0} (float : Float64 F) where
  -- How far the loop has come after `es`.
  record Adds (t t' : Tally F) (es : List (ExecutionEvent F Time)) : Type 0 where
    sim_passed : t'.sim_passed ≡ t.sim_passed + number_of EventOutcome.sim_passed es
    sim_failed : t'.sim_failed ≡ t.sim_failed + number_of EventOutcome.sim_failed es
    success : t'.success ≡ t.success + number_of EventOutcome.success es
    reverted : t'.reverted ≡ t.reverted + number_of EventOutcome.reverted es
    gas_rejected : t'.gas_rejected ≡ t.gas_rejected + number_of EventOutcome.gate_rejected es
    latency_sum : t'.latency_sum ≡ t.latency_sum + total_latency es
    realized : t'.realized ≡ foldl float.add t.realized (profits es)

  tally_event-Adds :
      (o : EventOutcome) (t : Tally F) (e : ExecutionEvent F Time)
      → e.outcome ≡ o
      → Fits t 1 e.latency_ms
      → Adds t (tally_event float t e) (e ∷ [])
  unfolding tally_event outcome_eq add_profit
  tally_event-Adds EventOutcome.success t e q f = ground arith
  tally_event-Adds o t e q f = ground arith

  Fits-rest :
      (t : Tally F) (e : ExecutionEvent F Time) (es : List (ExecutionEvent F Time))
      → Fits t (suc (length es)) (e.latency_ms + total_latency es)
      → Adds t (tally_event float t e) (e ∷ [])
      → Fits (tally_event float t e) (length es) (total_latency es)
  Fits-rest t e es f a =
      ground
        (arith, a.sim_passed, a.sim_failed, a.success, a.reverted, a.gas_rejected, a.latency_sum)

  tally-Adds :
      (t : Tally F) (es : List (ExecutionEvent F Time))
      → Fits t (length es) (total_latency es)
      → Adds t (tally float t es) es
  unfolding tally
  tally-Adds t [] f = ground arith
  tally-Adds t (e ∷ es) f =
      let first = tally_event-Adds e.outcome t e refl (omega arith) in
      let rest = tally-Adds (tally_event float t e) es (Fits-rest t e es f first) in
      record {
        sim_passed = omega (arith, first.sim_passed, rest.sim_passed);
        sim_failed = omega (arith, first.sim_failed, rest.sim_failed);
        success = omega (arith, first.success, rest.success);
        reverted = omega (arith, first.reverted, rest.reverted);
        gas_rejected = omega (arith, first.gas_rejected, rest.gas_rejected);
        latency_sum = omega (arith, first.latency_sum, rest.latency_sum);
        realized =
            rest.realized
            ∙ ap (λ r. foldl float.add r (profits es))
                (first.realized
                  ∙ ap (foldl float.add t.realized)
                      (append-nil (profit_of e.outcome e.actual_profit_usdc)))
            ∙ sym (
                foldl-append float.add t.realized (profit_of e.outcome e.actual_profit_usdc)
                  (profits es));
      }

  latency_bound :
      (es : List (ExecutionEvent F Time))
      → All (λ e. e.latency_ms < 2 ^ 64) es
      → total_latency es + length es ≤ length es * 2 ^ 64
  latency_bound [] h = omega arith
  latency_bound (e ∷ es) h = omega (arith, latency_bound es h.1, h.0)

  counted-le :
      (es : List (ExecutionEvent F Time))
      → number_of EventOutcome.sim_passed es
          + number_of EventOutcome.sim_failed es
          + number_of EventOutcome.success es
          + number_of EventOutcome.reverted es
          + number_of EventOutcome.gate_rejected es
        ≤ length es
  unfolding outcome_eq
  counted-le [] = omega arith
  counted-le (e ∷ es) = ground (arith, counted-le es)

  -- The summary of a buffer of fewer than 2^64 events with `u64` latencies counts the events of each
  -- of its five outcomes exactly, and together at most as many as there are; its mean is the exact
  -- sum of the latencies over their number, and 0.0 without a division for an empty buffer; the
  -- realised profit is the sum, from the oldest on, of the profits of the successful events alone.
  pub summary_totals :
      (b : ReplayBuffer (ExecutionEvent F Time))
      → length b.events < 2 ^ 64
      → All (λ e. e.latency_ms < 2 ^ 64) b.events
      → let s = summary float b in
        let es = b.events in
        (s.total ≡ length es)
        × (s.sim_passed ≡ number_of EventOutcome.sim_passed es)
        × (s.sim_failed ≡ number_of EventOutcome.sim_failed es)
        × (s.success ≡ number_of EventOutcome.success es)
        × (s.reverted ≡ number_of EventOutcome.reverted es)
        × (s.gas_rejected ≡ number_of EventOutcome.gate_rejected es)
        × (s.sim_passed + s.sim_failed + s.success + s.reverted + s.gas_rejected ≤ s.total)
        × (s.mean_latency_ms ≡ (
            if length es == 0
            then float.zero
            else float.div (float.of_int (total_latency es)) (float.of_int (length es))))
        × (s.total_realized_profit_usdc ≡ foldl float.add float.zero (profits es))
  unfolding summary
  summary_totals b short latencies =
      let es = b.events in
      let fits : Fits (tally_zero float) (length es) (total_latency es) =
        omega (arith, latency_bound es latencies) in
      let a = tally-Adds (tally_zero float) es fits in
      let t = tally float (tally_zero float) es in
      let counts : (t.sim_passed ≡ number_of EventOutcome.sim_passed es)
          × (t.sim_failed ≡ number_of EventOutcome.sim_failed es)
          × (t.success ≡ number_of EventOutcome.success es)
          × (t.reverted ≡ number_of EventOutcome.reverted es)
          × (t.gas_rejected ≡ number_of EventOutcome.gate_rejected es)
          × (t.latency_sum ≡ total_latency es) =
        omega (
          arith, a.sim_passed, a.sim_failed, a.success, a.reverted, a.gas_rejected, a.latency_sum,
        ) in
      (
        refl,
        counts.0,
        counts.1,
        counts.2,
        counts.3,
        counts.4,
        omega (arith, counts.0, counts.1, counts.2, counts.3, counts.4, counted-le es),
        rw counts.5,
        a.realized,
      )
