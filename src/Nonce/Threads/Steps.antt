-- ===== src/Nonce/Threads/Steps.antt =====
-- crates/chain/src/nonce.rs: what one step of a thread keeps.
use alpharouting.Prelude.{ℕ, ◌+◌, ◌-◌, ◌^◌, ◌≤◌, ◌<◌, ◌≡◌, refl, List, [], ◌∷◌, arith}
use alpharouting.OrderedSet.{AscendsFrom}
use alpharouting.OrderedSet.Laws.{AscendsFrom-mono}
use alpharouting.Nonce.Ledger.{Ledger, range, places, is_issued}
use alpharouting.Nonce.Ledger.Exact.{count-append, count-range}
use alpharouting.Nonce.Threads.{
  Pc, idle, popping, adding, loading, exchanging, pop_step, thread_step, PcFits,
}

-- What one thread's step keeps.
pub record StepFits (seed limit : ℕ) (l : Ledger) (out : Ledger × Pc) : Type 0 where
  pub ordered : AscendsFrom 0 out.0.queue.released
  pub exact : (n : ℕ) → places l n ≡ is_issued seed l n → places out.0 n ≡ is_issued seed out.0 n
  pub rises : l.queue.current ≤ out.0.queue.current
  pub counter : out.0.queue.current ≤ limit + 1
  pub thread : PcFits limit out.0 out.1

module _ (seed limit : ℕ) (l : Ledger) (ordered : AscendsFrom 0 l.queue.released)
    (from_seed : seed ≤ l.queue.current) (counter : l.queue.current ≤ limit)
    (no_wrap : limit + 1 < 2 ^ 64) where
  pop_step_cases : (pool : List ℕ) → l.queue.released ≡ pool → StepFits seed limit l (pop_step l)
  unfolding pop_step
  pop_step_cases [] e = record {
    ordered = ground arith;
    exact = λ n h. ground arith;
    rises = ground arith;
    counter = ground arith;
    thread = ground arith;
  }
  pop_step_cases (n ∷ rest) e = record {
    ordered = ground (arith, AscendsFrom-mono 0 (n + 1) rest);
    exact = λ k h. ground arith;
    rises = ground arith;
    counter = ground arith;
    thread = ground arith;
  }

  pub thread_step-StepFits : (p : Pc) → PcFits limit l p → StepFits seed limit l (thread_step l p)
  unfolding thread_step
  thread_step-StepFits idle f = record {
    ordered = ordered;
    exact = λ n h. h;
    rises = omega arith;
    counter = omega arith;
    thread = tt;
  }
  thread_step-StepFits popping f = pop_step_cases l.queue.released refl
  thread_step-StepFits adding f = record {
    ordered = ordered;
    exact = λ n h. ground arith;
    rises = ground arith;
    counter = ground arith;
    thread = tt;
  }
  thread_step-StepFits (loading p) f = record {
    ordered = ground arith;
    exact = λ n h. ground arith;
    rises = ground arith;
    counter = ground arith;
    thread = ground arith;
  }
  thread_step-StepFits (exchanging local p) f = record {
    ordered = ground arith;
    exact = λ n h. ground (
      arith,
      count-append n (range local (p - local)) l.foreign,
      count-range n local (p - local),
    );
    rises = ground arith;
    counter = ground arith;
    thread = ground arith;
  }

pub PcFits-later :
    (limit : ℕ) (l l' : Ledger) (p : Pc)
    → l.queue.current ≤ l'.queue.current
    → PcFits limit l p
    → PcFits (limit + 1) l' p
PcFits-later limit l l' idle h f = tt
PcFits-later limit l l' popping h f = tt
PcFits-later limit l l' adding h f = tt
PcFits-later limit l l' (loading p) h f = omega arith
PcFits-later limit l l' (exchanging local p) h f = omega arith

pub PcFits-weaken : (limit : ℕ) (l : Ledger) (p : Pc) → PcFits limit l p → PcFits (limit + 1) l p
PcFits-weaken limit l p f = PcFits-later limit l l p (omega arith) f
