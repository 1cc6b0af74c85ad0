-- ===== src/Nonce/Tests.antt =====
-- The unit tests of crates/chain/src/nonce.rs, and the theorems at concrete inputs.
use alpharouting.Prelude.{◌≡◌, ◌≤◌, ◌<◌, ◌⊎◌, refl, some, List, [], ◌∷◌, arith}
use alpharouting.OrderedSet.{count}
use alpharouting.Nonce.{NonceQueue, new, next, release, released_count, reconcile, reconcile_within}
use alpharouting.Nonce.Laws.{reconcile_within-max, drain, release_all}
use alpharouting.Nonce.Ledger.{
  Action, allocate, broadcast, abort, observe, Fits, step, run, start, places, is_issued,
}
use alpharouting.Nonce.Ledger.Histories.{run-exact, next-fresh}
use alpharouting.Nonce.Threads.{
  Event, calls_next, calls_reconcile, runs, releases, interleave, boot, adding, exchanging, loading,
  idle, advance,
}
use alpharouting.Nonce.Threads.Exact.{interleave-exact}
use alpharouting.Nonce.Threads.Races.{exchange_progress, next_overtakes}

abbrev pool : NonceQueue
pool = record { current = 13; released = 10 ∷ 12 ∷ [] }

next_is_monotonic : drain 3 (new 100) ≡ (100 ∷ 101 ∷ 102 ∷ [], new 103)
unfolding drain next new
next_is_monotonic = refl

reconcile_does_not_regress : reconcile (new 100) 50 ≡ (100, new 100)
unfolding reconcile new
reconcile_does_not_regress = refl

release_pops_smallest_first :
    drain 4 (release_all (new 13) (12 ∷ 10 ∷ 11 ∷ [])) ≡ (10 ∷ 11 ∷ 12 ∷ 13 ∷ [], new 14)
unfolding drain release_all release next new
release_pops_smallest_first = refl

release_is_idempotent : released_count (release_all (new 1) (0 ∷ 0 ∷ 0 ∷ [])) ≡ 1
unfolding release_all release new released_count
release_is_idempotent = refl

-- Allocate two, abort the first, broadcast the second; the chain then reports 9.
abbrev actions : List Action
actions = allocate ∷ allocate ∷ abort 5 ∷ broadcast 6 ∷ observe 9 ∷ []

actions-Fits : Fits 5 9 actions
actions-Fits = omega arith

actions_ledger : run (start 5) actions ≡ record {
  queue = record { current = 9; released = 5 ∷ [] };
  held = [];
  sent = 6 ∷ [];
  foreign = 7 ∷ 8 ∷ [];
}
unfolding run step start new next release reconcile
actions_ledger = refl

-- The same, with the aborted nonce issued again and broadcast.
abbrev settled : List Action
settled = allocate ∷ allocate ∷ abort 5 ∷ broadcast 6 ∷ allocate ∷ broadcast 5 ∷ []

run-exact_example : places (run (start 5) actions) 7 ≡ is_issued 5 (run (start 5) actions) 7
run-exact_example = run-exact 5 9 actions actions-Fits 7

next-fresh_example :
    let l = run (start 5) actions in
    let n = (next l.queue).0 in
    (count n l.held ≡ 0) × (count n l.sent ≡ 0) × (count n l.foreign ≡ 0) × (5 ≤ n)
next-fresh_example = next-fresh 5 9 actions actions-Fits

reconcile_within-max_example : reconcile_within 1 (new 50) 75 ≡ some (75, new 75)
unfolding new
reconcile_within-max_example = reconcile_within-max 0 (new 50) 75

-- Thread 0 gets nonce 5; thread 1 finds the pool empty; then thread 0 releases 5.
abbrev race : List Event
race = calls_next 0 ∷ runs 0 ∷ runs 0 ∷ calls_next 1 ∷ runs 1 ∷ releases 5 ∷ []

-- Two threads reconcile at once, and the second raises the counter first.
abbrev contest : List Event
contest = calls_reconcile 0 8 ∷ calls_reconcile 1 7 ∷ runs 0 ∷ runs 1 ∷ runs 1 ∷ []

interleave-exact_example : let l = (interleave (boot 5) race).ledger in places l 5 ≡ is_issued 5 l 5
interleave-exact_example = interleave-exact 5 5 race (omega arith) (omega arith) (omega arith) 5

race_adding : (interleave (boot 5) race).pc 1 ≡ adding
unfolding interleave boot start new
race_adding = refl

race_pool : 0 < count 5 (interleave (boot 5) race).ledger.queue.released
unfolding interleave boot start new step
race_pool = omega arith

next_overtakes_example :
    let s = interleave (boot 5) race in
    let s' = advance s (runs 1) in
    (s'.ledger.held ≡ s.ledger.queue.current ∷ s.ledger.held)
    × (5 < s.ledger.queue.current)
    × (s'.ledger.queue.released ≡ s.ledger.queue.released)
next_overtakes_example =
    next_overtakes 5 5 race (omega arith) (omega arith) (omega arith) 1 5 race_adding race_pool

contest_exchanging : (interleave (boot 5) contest).pc 0 ≡ exchanging 5 8
unfolding interleave boot start new
contest_exchanging = refl

exchange_progress_example :
    let s = interleave (boot 5) contest in
    let s' = advance s (runs 0) in
    (s.ledger.queue.current ≤ s'.ledger.queue.current)
    × (((s'.pc 0 ≡ idle) × (s'.ledger.queue.current ≡ 8))
        ⊎ ((s'.pc 0 ≡ loading 8) × (5 < s.ledger.queue.current) × (s'.ledger ≡ s.ledger)))
exchange_progress_example =
    exchange_progress 5 8 contest (omega arith) (omega arith) (omega arith) 0 5 8 contest_exchanging
