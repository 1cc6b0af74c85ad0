-- ===== src/Nonce/Threads/Races.antt =====
-- Two threads at the nonce queue: what a failed exchange means, and how `next` can pass the pool by.
use alpharouting.Prelude.{
  ℕ, ◌+◌, ◌^◌, ◌≤◌, ◌<◌, ◌≡◌, ◌⊎◌, refl, List, ◌∷◌, length, All, arith, ==_refl, subst,
}
use alpharouting.OrderedSet.{count}
use alpharouting.Nonce.Ledger.{Ledger}
use alpharouting.Nonce.Threads.{
  Pc, idle, adding, loading, exchanging, System, add_step, exchange_step, thread_step, Event, runs,
  advance, interleave, boot, ReportsAtMost, PcFits,
}
use alpharouting.Nonce.Threads.Exact.{interleave-boot-SystemInv}

run_thread :
    (s : System) (t : ℕ) (p : Pc)
    → s.pc t ≡ p
    → ((advance s (runs t)).ledger ≡ (thread_step s.ledger p).0)
      × ((advance s (runs t)).pc t ≡ (thread_step s.ledger p).1)
unfolding advance
run_thread s t p e = rw (e, ==_refl t) (refl, refl)

exchange_step_cases :
    (l : Ledger) (local p limit : ℕ)
    → PcFits limit l (exchanging local p)
    → let out = exchange_step l local p in
      (l.queue.current ≤ out.0.queue.current)
      × (((out.1 ≡ idle) × (out.0.queue.current ≡ p))
          ⊎ ((out.1 ≡ loading p) × (local < l.queue.current) × (out.0 ≡ l)))
unfolding exchange_step
exchange_step_cases l local p limit f = ground arith

module _ (seed limit : ℕ) (events : List Event) (within : seed ≤ limit)
    (reports : All (ReportsAtMost limit) events) (no_wrap : limit + length events < 2 ^ 64) where
  -- In any reachable state, a thread of `reconcile` that is about to exchange either sets the
  -- counter to what the chain reported and is done, or finds that another thread has raised the
  -- counter since its load, changes nothing and tries again: the counter never falls, and each
  -- retry is paid for by the progress of another thread.
  pub exchange_progress :
      (t local p : ℕ)
      → (interleave (boot seed) events).pc t ≡ exchanging local p
      → let s = interleave (boot seed) events in
        let s' = advance s (runs t) in
        (s.ledger.queue.current ≤ s'.ledger.queue.current)
        × (((s'.pc t ≡ idle) × (s'.ledger.queue.current ≡ p))
            ⊎ ((s'.pc t ≡ loading p) × (local < s.ledger.queue.current) × (s'.ledger ≡ s.ledger)))
  exchange_progress t local p e =
      let s = interleave (boot seed) events in
      let inv = interleave-boot-SystemInv seed limit events within reports no_wrap in
      let out = run_thread s t (exchanging local p) e in
      let fits = subst (PcFits (limit + length events) s.ledger) e (inv.threads t) in
      rw (out.0, out.1)
        (unfold thread_step in exchange_step_cases s.ledger local p (limit + length events) fits)

  -- The race of `next`: in any reachable state in which a thread has found the pool empty and has
  -- not yet reached the counter, and a nonce has come back to the pool in between, the thread's
  -- step gives out a larger nonce than that one, which stays in the pool.
  pub next_overtakes :
      (t n : ℕ)
      → (interleave (boot seed) events).pc t ≡ adding
      → 0 < count n (interleave (boot seed) events).ledger.queue.released
      → let s = interleave (boot seed) events in
        let s' = advance s (runs t) in
        (s'.ledger.held ≡ s.ledger.queue.current ∷ s.ledger.held)
        × (n < s.ledger.queue.current)
        × (s'.ledger.queue.released ≡ s.ledger.queue.released)
  next_overtakes t n e h =
      let s = interleave (boot seed) events in
      let inv = interleave-boot-SystemInv seed limit events within reports no_wrap in
      let out = run_thread s t adding e in
      rw (out.0) (unfold thread_step add_step in (refl, ground (arith, inv.exact n), refl))
