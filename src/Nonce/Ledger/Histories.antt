-- ===== src/Nonce/Ledger/Histories.antt =====
-- Whole histories of calls on one nonce queue.
use alpharouting.Prelude.{
  ℕ, ◌+◌, ◌^◌, ◌≤◌, ◌<◌, ◌≡◌, refl, inl, inr, List, [], ◌∷◌, length, All, arith,
}
use alpharouting.OrderedSet.{count}
use alpharouting.Nonce.{new, next}
use alpharouting.Nonce.Ledger.{
  Ledger, Action, allocate, broadcast, abort, observe, AtMost, Fits, Inv, step, run, start, places,
  is_issued,
}
use alpharouting.Nonce.Ledger.Exact.{next_cases, step-current, step-Inv}

AtMost-mono :
    (limit : ℕ) (actions : List Action)
    → All (AtMost limit) actions
    → All (AtMost (limit + 1)) actions
AtMost-mono limit [] m = tt
AtMost-mono limit (allocate ∷ rest) m = (tt, AtMost-mono limit rest m.1)
AtMost-mono limit (broadcast n ∷ rest) m = (tt, AtMost-mono limit rest m.1)
AtMost-mono limit (abort n ∷ rest) m = (tt, AtMost-mono limit rest m.1)
AtMost-mono limit (observe p ∷ rest) m = (omega arith, AtMost-mono limit rest m.1)

run-Inv :
    (seed limit : ℕ) (l : Ledger) (actions : List Action)
    → l.queue.current ≤ limit
    → All (AtMost limit) actions
    → limit + length actions < 2 ^ 64
    → Inv seed l
    → Inv seed (run l actions)
unfolding run
run-Inv seed limit l [] h m w v = v
run-Inv seed limit l (a ∷ rest) h m w v =
    let bounds = step-current l a limit h m.0 (omega arith) in
    run-Inv seed (limit + 1) (step l a) rest bounds.1 (AtMost-mono limit rest m.1) (omega arith)
      (step-Inv seed l a (omega arith) v (omega (arith, v.from_seed)))

pub start-current : (seed : ℕ) → (start seed).queue.current ≡ seed
unfolding start new
start-current seed = refl

pub start-Inv : (seed : ℕ) → Inv seed (start seed)
unfolding start
start-Inv seed = record { ordered = tt; exact = λ n. ground arith; from_seed = omega arith }

module _ (seed limit : ℕ) (actions : List Action) (fits : Fits seed limit actions) where
  outcome-Inv : Inv seed (run (start seed) actions)
  unfolding start new
  outcome-Inv =
      run-Inv seed limit (start seed) actions fits.seed_within fits.reports_within fits.no_wrap
        (start-Inv seed)

  -- After any history in which callers broadcast or release only what they hold and the counter
  -- does not wrap, each nonce from the seed up to the counter is in exactly one place, once: held,
  -- broadcast, in the release pool, or passed over by a reconcile. Any other nonce is in none.
  pub run-exact :
      (n : ℕ) → places (run (start seed) actions) n ≡ is_issued seed (run (start seed) actions) n
  run-exact n = outcome-Inv.exact n

  -- After such a history, `next` returns a nonce that nobody holds, that was not broadcast and
  -- that no reconcile passed over, and that is not below the seed.
  pub next-fresh :
      let l = run (start seed) actions in
      let n = (next l.queue).0 in
      (count n l.held ≡ 0) × (count n l.sent ≡ 0) × (count n l.foreign ≡ 0) × (seed ≤ n)
  next-fresh =
      let l = run (start seed) actions in
      elim (next_cases l.queue l.queue.released refl) [
        | inl (m, rest, p, f) ↦ ground (arith, outcome-Inv.exact m)
        | inr (p, f) ↦ ground (arith, outcome-Inv.exact l.queue.current, outcome-Inv.from_seed)
      ]

  -- After such a history, if nobody holds a nonce and the release pool is empty, the sequence is
  -- gapless: each nonce from the seed up to the counter was broadcast or passed over by a
  -- reconcile, and exactly once.
  settled-gapless :
      (n : ℕ)
      → (run (start seed) actions).held ≡ []
      → (run (start seed) actions).queue.released ≡ []
      → seed ≤ n
      → n < (run (start seed) actions).queue.current
      → let l = run (start seed) actions in count n l.sent + count n l.foreign ≡ 1
  settled-gapless n e f lo hi = ground (arith, outcome-Inv.exact n)
