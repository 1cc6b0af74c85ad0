-- ===== src/Metrics/Averages.antt =====
-- crates/workers/src/metrics.rs: what the averages are after any observations.
use alpharouting.Prelude.{
  false, ◌+◌, ◌^◌, ◌<◌, ◌≡◌, refl, ap, ◌∙◌, List, [], ◌∷◌, length, arith, ◌==◌,
}
use alpharouting.Float64.{Float64}
use alpharouting.Metrics.{
  AvgAccum, MetricsState, default_accum, mix, observe, new, observe_wait, observe_run, snapshot,
}

-- What the pool's threads report, in the order in which they take the mutexes.
pub data Observation (F : Type 0) : Type 0 where
  wait run : F → Observation F

module _ {F : Type 0} where
  abbrev pub waits : List (Observation F) → List F
  waits [] = []
  waits (wait ms ∷ os) = ms ∷ waits os
  waits (run ms ∷ os) = waits os

  abbrev pub runs : List (Observation F) → List F
  runs [] = []
  runs (wait ms ∷ os) = runs os
  runs (run ms ∷ os) = ms ∷ runs os

module _ {F : Type 0} (float : Float64 F) where
  -- The average by its definition: the first sample, and from there each sample weighs a tenth.
  pub average : F → List F → F
  average value [] = value
  average value (x ∷ xs) =
      let tenth = float.decimal 1 1 in
      average (float.add (float.mul tenth x) (float.mul (float.sub float.one tenth) value)) xs

  abbrev pub average_of : List F → F
  average_of [] = float.zero
  average_of (x ∷ xs) = average x xs

  unfoldable pub observe_all : MetricsState F → List (Observation F) → MetricsState F
  observe_all m [] = m
  observe_all m (wait ms ∷ os) = observe_all (observe_wait float m ms) os
  observe_all m (run ms ∷ os) = observe_all (observe_run float m ms) os

  -- One accumulator on its own.
  fold : AvgAccum F → List F → AvgAccum F
  fold a [] = a
  fold a (x ∷ xs) = fold (observe float a x) xs

  observe_all-parts :
      (m : MetricsState F) (os : List (Observation F))
      → observe_all m os
        ≡ record m { wait_ms = fold m.wait_ms (waits os); run_ms = fold m.run_ms (runs os) }
  unfolding observe_all fold observe_wait observe_run
  observe_all-parts m [] = refl
  observe_all-parts m (wait ms ∷ os) = observe_all-parts (observe_wait float m ms) os
  observe_all-parts m (run ms ∷ os) = observe_all-parts (observe_run float m ms) os

  -- After the first sample the count stays above zero, as long as it does not wrap round.
  fold-average :
      (a : AvgAccum F) (xs : List F)
      → 0 < a.samples
      → a.samples + length xs < 2 ^ 64
      → (fold a xs).value ≡ average a.value xs
  unfolding fold average observe
  fold-average a [] h k = refl
  fold-average a (x ∷ xs) h k =
      let counted : (a.samples == 0) ≡ false = ground arith in
      let mixed : (observe float a x).value ≡ mix float x a.value = rw (counted, observe) in
      fold-average (observe float a x) xs (omega arith) (omega arith) ∙ ap (λ v. average v xs) mixed

  fold-average_of :
      (xs : List F) → length xs < 2 ^ 64 → (fold (default_accum float) xs).value ≡ average_of xs
  unfolding fold observe default_accum
  fold-average_of [] h = refl
  fold-average_of (x ∷ xs) h =
      fold-average (observe float (default_accum float) x) xs (omega arith) (omega arith)

  length-parts : (os : List (Observation F)) → length (waits os) + length (runs os) ≡ length os
  length-parts [] = refl
  length-parts (wait ms ∷ os) = omega (arith, length-parts os)
  length-parts (run ms ∷ os) = omega (arith, length-parts os)

  -- After fewer than 2 ^ 64 observations of waits and runs in any order, a snapshot of fresh metrics
  -- shows as each average what its own samples alone give, in their order: 0.0 without a sample, the
  -- first sample, and from there 0.1 of each sample and 1.0 - 0.1 of what was; the counters are as
  -- they were.
  pub snapshot-observe_all :
      (os : List (Observation F))
      → length os < 2 ^ 64
      → snapshot (observe_all (new float) os) ≡ record {
        queue_depth = 0;
        active_workers = 0;
        completed_total = 0;
        deadline_dropped = 0;
        queue_rejected = 0;
        avg_wait_ms = average_of (waits os);
        avg_run_ms = average_of (runs os);
      }
  unfolding snapshot new
  snapshot-observe_all os h =
      ap snapshot (observe_all-parts (new float) os)
      ∙ rw (
        fold-average_of (waits os) (omega (arith, length-parts os)),
        fold-average_of (runs os) (omega (arith, length-parts os)),
      )
