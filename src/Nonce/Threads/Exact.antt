-- ===== src/Nonce/Threads/Exact.antt =====
-- Under every schedule of the threads each nonce stays in exactly one place.
use alpharouting.Prelude.{
  ℕ, ◌+◌, ◌^◌, ◌≤◌, ◌<◌, ◌≡◌, subst, Bool-cases, inl, inr, List, [], ◌∷◌, length, All, arith, ◌==◌,
}
use alpharouting.OrderedSet.{AscendsFrom}
use alpharouting.Nonce.Ledger.{Ledger, Action, abort, broadcast, step, places, is_issued}
use alpharouting.Nonce.Ledger.Exact.{step-ordered, step-exact, step-current}
use alpharouting.Nonce.Ledger.{AtMost}
use alpharouting.Nonce.Ledger.Histories.{start-Inv, start-current}
use native.Mathlib.Nat.{add-zero}
use alpharouting.Nonce.Threads.{
  Pc, idle, popping, adding, loading, exchanging, System, thread_step, Event, calls_next,
  calls_reconcile, runs, releases, broadcasts, begin, advance, interleave, boot, ReportsAtMost,
  PcFits, set_pc,
}
use alpharouting.Nonce.Threads.Steps.{thread_step-StepFits, PcFits-later, PcFits-weaken}

-- What holds between two steps.
pub record SystemInv (seed limit : ℕ) (s : System) : Type 0 where
  pub ordered : AscendsFrom 0 s.ledger.queue.released
  pub exact : (n : ℕ) → places s.ledger n ≡ is_issued seed s.ledger n
  pub from_seed : seed ≤ s.ledger.queue.current
  pub counter : s.ledger.queue.current ≤ limit
  pub threads : (t : ℕ) → PcFits limit s.ledger (s.pc t)

begin-PcFits :
    (limit : ℕ) (l : Ledger) (p q : Pc)
    → PcFits limit l p
    → PcFits limit l q
    → PcFits limit l (begin p q)
begin-PcFits limit l idle q f g = g
begin-PcFits limit l popping q f g = f
begin-PcFits limit l adding q f g = f
begin-PcFits limit l (loading p) q f g = f
begin-PcFits limit l (exchanging local p) q f g = f

-- One thread moved, and the others are where they were.
set_pc-PcFits :
    (limit : ℕ) (l l' : Ledger) (pcs : ℕ → Pc) (t : ℕ) (p : Pc)
    → l.queue.current ≤ l'.queue.current
    → ((u : ℕ) → PcFits limit l (pcs u))
    → PcFits (limit + 1) l' p
    → (u : ℕ) → PcFits (limit + 1) l' (set_pc pcs t p u)
set_pc-PcFits limit l l' pcs t p h f g u = elim (Bool-cases (u == t)) [
  | inl e ↦ rw e g
  | inr e ↦ rw e (PcFits-later limit l l' (pcs u) h (f u))
]

ledger_action-SystemInv :
    (seed limit : ℕ) (s : System) (a : Action)
    → AtMost limit a
    → limit + 1 < 2 ^ 64
    → SystemInv seed limit s
    → SystemInv seed (limit + 1) (record s { ledger = step s.ledger a })
ledger_action-SystemInv seed limit s a m w v =
    let bounds = step-current s.ledger a limit v.counter m (omega (arith, v.counter)) in
    record {
      ordered = step-ordered s.ledger a v.ordered;
      exact = λ n.
          step-exact seed s.ledger a n v.ordered v.from_seed (omega (arith, v.counter)) (v.exact n);
      from_seed = omega (arith, v.from_seed);
      counter = bounds.1;
      threads = λ t. PcFits-later limit s.ledger (step s.ledger a) (s.pc t) bounds.0 (v.threads t);
    }

begin-SystemInv :
    (seed limit : ℕ) (s : System) (t : ℕ) (p : Pc)
    → PcFits limit s.ledger p
    → SystemInv seed limit s
    → SystemInv seed (limit + 1) (record s { pc = set_pc s.pc t (begin (s.pc t) p) })
begin-SystemInv seed limit s t p f v = record {
  ordered = v.ordered;
  exact = v.exact;
  from_seed = v.from_seed;
  counter = omega (arith, v.counter);
  threads =
      set_pc-PcFits limit s.ledger s.ledger s.pc t (begin (s.pc t) p) (omega arith) v.threads
        (PcFits-weaken limit s.ledger _ (begin-PcFits limit s.ledger (s.pc t) p (v.threads t) f));
}

runs-SystemInv :
    (seed limit : ℕ) (s : System) (t : ℕ)
    → limit + 1 < 2 ^ 64
    → SystemInv seed limit s
    → SystemInv seed (limit + 1) (advance s (runs t))
unfolding advance
runs-SystemInv seed limit s t w v =
    let out = thread_step s.ledger (s.pc t) in
    let fits =
      thread_step-StepFits seed limit s.ledger v.ordered v.from_seed v.counter w (s.pc t)
        (v.threads t) in
    record {
      ordered = fits.ordered;
      exact = λ n. fits.exact n (v.exact n);
      from_seed = omega (arith, v.from_seed, fits.rises);
      counter = fits.counter;
      threads =
          set_pc-PcFits limit s.ledger out.0 s.pc t out.1 fits.rises v.threads
            (PcFits-weaken limit out.0 out.1 fits.thread);
    }

advance-SystemInv :
    (seed limit : ℕ) (s : System) (e : Event)
    → ReportsAtMost limit e
    → limit + 1 < 2 ^ 64
    → SystemInv seed limit s
    → SystemInv seed (limit + 1) (advance s e)
unfolding advance
advance-SystemInv seed limit s (calls_next t) m w v = begin-SystemInv seed limit s t popping tt v
advance-SystemInv seed limit s (calls_reconcile t p) m w v =
    begin-SystemInv seed limit s t (loading p) m v
advance-SystemInv seed limit s (runs t) m w v = runs-SystemInv seed limit s t w v
advance-SystemInv seed limit s (releases n) m w v =
    ledger_action-SystemInv seed limit s (abort n) tt w v
advance-SystemInv seed limit s (broadcasts n) m w v =
    ledger_action-SystemInv seed limit s (broadcast n) tt w v

ReportsAtMost-mono :
    (limit : ℕ) (events : List Event)
    → All (ReportsAtMost limit) events
    → All (ReportsAtMost (limit + 1)) events
ReportsAtMost-mono limit [] m = tt
ReportsAtMost-mono limit (calls_next t ∷ rest) m = (tt, ReportsAtMost-mono limit rest m.1)
ReportsAtMost-mono limit (calls_reconcile t p ∷ rest) m =
    (omega arith, ReportsAtMost-mono limit rest m.1)
ReportsAtMost-mono limit (runs t ∷ rest) m = (tt, ReportsAtMost-mono limit rest m.1)
ReportsAtMost-mono limit (releases n ∷ rest) m = (tt, ReportsAtMost-mono limit rest m.1)
ReportsAtMost-mono limit (broadcasts n ∷ rest) m = (tt, ReportsAtMost-mono limit rest m.1)

interleave-SystemInv :
    (seed limit : ℕ) (s : System) (events : List Event)
    → All (ReportsAtMost limit) events
    → limit + length events < 2 ^ 64
    → SystemInv seed limit s
    → SystemInv seed (limit + length events) (interleave s events)
unfolding interleave
interleave-SystemInv seed limit s [] m w v = rw add-zero v
interleave-SystemInv seed limit s (e ∷ rest) m w v =
    subst (λ k. SystemInv seed k (interleave (advance s e) rest)) (omega arith)
      (interleave-SystemInv seed (limit + 1) (advance s e) rest (ReportsAtMost-mono limit rest m.1)
        (omega arith) (advance-SystemInv seed limit s e m.0 (omega arith) v))

boot-SystemInv : (seed limit : ℕ) → seed ≤ limit → SystemInv seed limit (boot seed)
unfolding boot
boot-SystemInv seed limit h =
    let v = start-Inv seed in
    record {
      ordered = v.ordered;
      exact = v.exact;
      from_seed = v.from_seed;
      counter = omega (arith, start-current seed);
      threads = λ t. tt;
    }

module _ (seed limit : ℕ) (events : List Event) (within : seed ≤ limit)
    (reports : All (ReportsAtMost limit) events) (no_wrap : limit + length events < 2 ^ 64) where
  pub interleave-boot-SystemInv :
      SystemInv seed (limit + length events) (interleave (boot seed) events)
  interleave-boot-SystemInv =
      interleave-SystemInv seed limit (boot seed) events reports no_wrap
        (boot-SystemInv seed limit within)

  -- Under every interleaving of the atomic steps of concurrent `next`, `reconcile` and `release`
  -- calls, in which a thread releases or broadcasts only what is held and the counter does not
  -- wrap, each nonce from the seed up to the counter is in exactly one place, once (held,
  -- broadcast, in the pool, or passed over), and any other is in none.
  pub interleave-exact :
      (n : ℕ) → let l = (interleave (boot seed) events).ledger in places l n ≡ is_issued seed l n
  interleave-exact = interleave-boot-SystemInv.exact
