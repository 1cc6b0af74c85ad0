-- ===== src/Api/Counts.antt =====
-- crates/api/src/lib.rs: the counts that /metrics reports of the replay buffer.
use alpharouting.Prelude.{
  ℕ, ◌-◌, All, All-drop, take_last, sym, subst, ◌<◌, ◌^◌, ◌+◌, ◌≡◌, refl, ap, ◌∙◌, Option, none,
  some, List, [], ◌∷◌, ◌++◌, length, length-append, length-take_last, min, max, arith,
  if◌then◌else◌,
}
use alpharouting.Text.{Text, codes, text_eq}
use alpharouting.Float64.{Float64}
use alpharouting.Observability.{ExecutionEvent, EventOutcome}
use alpharouting.Observability.Buffer.{ReplayBuffer, new, record_event, len}
use alpharouting.Observability.Buffer.Eviction.{record_all, record_all-events}
use alpharouting.Observability.Buffer.Totals.{number_of, summary_totals}
use alpharouting.Api.Value.{
  Json, string, number, float, boolean, array, object, Fields, done, field,
}
use alpharouting.Api.State.{UrlParts, AppState}
use alpharouting.Api.Handlers.{observ_block, metrics}

module _ {F : Type 0} where
  -- `value[key]` of an object.
  abbrev pub member_of : Text → Fields F → Option (Json F)
  member_of key done = none
  member_of key (field k v rest) = if text_eq k key then some v else member_of key rest

  abbrev pub member : Text → Json F → Option (Json F)
  member key (object fields) = member_of key fields
  member key (string s) = none
  member key (number n) = none
  member key (float x) = none
  member key (boolean b) = none
  member key (array items) = none

module _ {E : Type 0} where
  record_all-append :
      (b : ReplayBuffer E) (es more : List E)
      → record_all (record_all b es) more ≡ record_all b (es ++ more)
  unfolding record_all
  record_all-append b [] more = refl
  record_all-append b (e ∷ es) more = record_all-append (record_event b e) es more

  record_all-capacity : (b : ReplayBuffer E) (es : List E) → (record_all b es).capacity ≡ b.capacity
  unfolding record_all record_event
  record_all-capacity b [] = refl
  record_all-capacity b (e ∷ es) = record_all-capacity (record_event b e) es

  length-record_all :
      (capacity : ℕ) (es : List E)
      → length (record_all (new capacity) es).events ≡ min (length es) (max capacity 1)
  length-record_all capacity es =
      ap length (record_all-events capacity es) ∙ length-take_last (max capacity 1) es ∙ omega arith

  length-record_more :
      (capacity : ℕ) (es more : List E)
      → length (record_all (record_all (new capacity) es) more).events
        ≡ min (length es + length more) (max capacity 1)
  length-record_more capacity es more =
      ap (λ b. length b.events) (record_all-append (new capacity) es more)
      ∙ length-record_all capacity (es ++ more)
      ∙ ap (λ n. min n (max capacity 1)) (length-append es more)

  record_more-capacity :
      (capacity : ℕ) (es more : List E)
      → (record_all (record_all (new capacity) es) more).capacity ≡ max capacity 1
  unfolding new
  record_more-capacity capacity es more =
      record_all-capacity (record_all (new capacity) es) more
      ∙ record_all-capacity (new capacity) es

module _ {F Time : Type 0} where
  latencies_kept :
      (capacity : ℕ) (es : List (ExecutionEvent F Time))
      → All (λ e. e.latency_ms < 2 ^ 64) es
      → All (λ e. e.latency_ms < 2 ^ 64) (record_all (new capacity) es).events
  latencies_kept capacity es h =
      subst (All (λ e. e.latency_ms < 2 ^ 64)) (sym (record_all-events capacity es))
        (All-drop (λ e. e.latency_ms < 2 ^ 64) (length es - max capacity 1) es h)

module _ {F Time U : Type 0} where
  -- A buffer of a capacity below 2 ^ 64, filled by record with events of `u64` latencies, answers /metrics
  -- with its capacity, as the total the number of events recorded before the summary, and as the
  -- number recorded those up to the length's reading, in which other threads may have recorded more;
  -- both at most the capacity, and a capacity of 0 counts as 1. The five other counts are those of
  -- the most recent events before the summary, as many as the capacity.
  pub metrics_counts :
      (float64 : Float64 F) (parts : UrlParts U) (now : Text) (capacity : ℕ)
      (es more : List (ExecutionEvent F Time)) (s : AppState F Time U)
      → s.observ ≡ some (record_all (new capacity) es)
      → capacity < 2 ^ 64
      → All (λ e. e.latency_ms < 2 ^ 64) es
      → let kept = take_last (max capacity 1) es in
        (block : Json F) × (member
            (codes "observability")
            (metrics float64 parts now (λ b. record_all b more) s).body
          ≡ some block)
        × (member (codes "total") block ≡ some (number (min (length es) (max capacity 1))))
        × (member (codes "events_recorded") block
            ≡ some (number (min (length es + length more) (max capacity 1))))
        × (member (codes "buffer_capacity") block ≡ some (number (max capacity 1)))
        × (member (codes "sim_passed") block
            ≡ some (number (number_of EventOutcome.sim_passed kept)))
        × (member (codes "sim_failed") block
            ≡ some (number (number_of EventOutcome.sim_failed kept)))
        × (member (codes "success") block ≡ some (number (number_of EventOutcome.success kept)))
        × (member (codes "reverted") block ≡ some (number (number_of EventOutcome.reverted kept)))
        × (member (codes "gas_rejected") block
            ≡ some (number (number_of EventOutcome.gate_rejected kept)))
  unfolding metrics observ_block text_eq len
  metrics_counts float64 parts now capacity es more s e c h =
      let b = record_all (new capacity) es in
      let short : length b.events < 2 ^ 64 = omega (arith, length-record_all capacity es) in
      let (total, passed, failed, success, reverted, rejected, _, _, _) =
        summary_totals float64 b short (latencies_kept capacity es h) in
      (
        observ_block float64 b (record_all b more),
        rw (e, metrics),
        ap (λ n. some (number n)) (total ∙ length-record_all capacity es),
        ap (λ n. some (number n)) (length-record_more capacity es more),
        ap (λ n. some (number n)) (record_more-capacity capacity es more),
        counted EventOutcome.sim_passed passed,
        counted EventOutcome.sim_failed failed,
        counted EventOutcome.success success,
        counted EventOutcome.reverted reverted,
        counted EventOutcome.gate_rejected rejected,
      )
    where
      counted :
          (o : EventOutcome) {n : ℕ}
          → n ≡ number_of o (record_all (new capacity) es).events
          → ◌≡◌ {A = Option (Json F)}
              (some (number n))
              (some (number (number_of o (take_last (max capacity 1) es))))
      counted o p = ap (λ n. some (number n)) (p ∙ ap (number_of o) (record_all-events capacity es))
