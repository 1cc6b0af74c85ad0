-- ===== src/Nonce/Threads.antt =====
-- crates/chain/src/nonce.rs under concurrent callers: each access of the mutex or the atomic is one
-- step, and a schedule interleaves the steps of any number of threads.
pub mod Steps
pub mod Exact
pub mod Races
use alpharouting.Prelude.{
  ℕ, ◌+◌, ◌-◌, ◌≤◌, ◌<◌, Bool, true, false, Option, none, some, List, [], ◌∷◌, ◌++◌, length, All,
  leb, ◌==◌, if◌then◌else◌,
}
use alpharouting.OrderedSet.{pop_first}
use alpharouting.Nonce.{fetch_add, compare_exchange}
use alpharouting.Nonce.Ledger.{Ledger, abort, broadcast, range, step, start}

-- Where a thread stands in `next` or `reconcile`.
pub data Pc : Type 0 where
  idle : Pc
  -- `next`: before the pool's lock, and between it and the counter.
  popping : Pc
  adding : Pc
  -- `reconcile`: before the load, and between it and the exchange of what was loaded.
  loading : ℕ → Pc
  exchanging : ℕ → ℕ → Pc

pub record System : Type 0 where
  pub ledger : Ledger
  pub pc : ℕ → Pc

abbrev pub set_pc : (ℕ → Pc) → ℕ → Pc → ℕ → Pc
set_pc pcs t p u = if u == t then p else pcs u

-- The part of `next` under the lock.
pub pop_step : Ledger → Ledger × Pc
unfolding pop_first
pop_step l = elim (pop_first l.queue.released) [
  | some (n, rest) ↦
      (record l { queue = record l.queue { released = rest }; held = n ∷ l.held }, idle)
  | none ↦ (l, adding)
]

pub add_step : Ledger → Ledger × Pc
unfolding fetch_add
add_step l = let (n, q) = fetch_add l.queue in (record l { queue = q; held = n ∷ l.held }, idle)

-- The load, and the return when the counter is not behind.
pub load_step : Ledger → ℕ → Ledger × Pc
load_step l p = if leb p l.queue.current then (l, idle) else (l, exchanging l.queue.current p)

-- The exchange: on success the nonces in between count as passed over; on failure the loop goes on.
pub exchange_step : Ledger → ℕ → ℕ → Ledger × Pc
unfolding compare_exchange
exchange_step l local p =
    let (done, q) = compare_exchange l.queue local p in
    if done
    then (record l { queue = q; foreign = range local (p - local) ++ l.foreign }, idle)
    else (l, loading p)

pub thread_step : Ledger → Pc → Ledger × Pc
unfolding pop_step add_step load_step exchange_step
thread_step l idle = (l, idle)
thread_step l popping = pop_step l
thread_step l adding = add_step l
thread_step l (loading p) = load_step l p
thread_step l (exchanging local p) = exchange_step l local p

-- What the scheduler or the callers do next. A `release` or a broadcast is one step.
pub data Event : Type 0 where
  calls_next : ℕ → Event
  calls_reconcile : ℕ → ℕ → Event
  runs : ℕ → Event
  releases : ℕ → Event
  broadcasts : ℕ → Event

-- A thread begins a call when it has finished the one before.
abbrev pub begin : Pc → Pc → Pc
begin idle p = p
begin popping p = popping
begin adding p = adding
begin (loading q) p = loading q
begin (exchanging local q) p = exchanging local q

unfoldable pub advance : System → Event → System
unfolding thread_step
advance s (calls_next t) = record s { pc = set_pc s.pc t (begin (s.pc t) popping) }
advance s (calls_reconcile t p) = record s { pc = set_pc s.pc t (begin (s.pc t) (loading p)) }
advance s (runs t) =
    let (l, p) = thread_step s.ledger (s.pc t) in record s { ledger = l; pc = set_pc s.pc t p }
advance s (releases n) = record s { ledger = step s.ledger (abort n) }
advance s (broadcasts n) = record s { ledger = step s.ledger (broadcast n) }

unfoldable pub interleave : System → List Event → System
unfolding advance
interleave s [] = s
interleave s (e ∷ rest) = interleave (advance s e) rest

unfoldable pub boot : ℕ → System
boot seed = record { ledger = start seed; pc = λ t. idle }

-- The chain reports no more than the limit.
abbrev pub ReportsAtMost : ℕ → Event → Type 0
ReportsAtMost limit (calls_reconcile t p) = p ≤ limit
ReportsAtMost limit (calls_next t) = Unit
ReportsAtMost limit (runs t) = Unit
ReportsAtMost limit (releases n) = Unit
ReportsAtMost limit (broadcasts n) = Unit

-- What a thread carries from its load: it saw a counter behind the chain's.
abbrev pub PcFits : ℕ → Ledger → Pc → Type 0
PcFits limit l idle = Unit
PcFits limit l popping = Unit
PcFits limit l adding = Unit
PcFits limit l (loading p) = p ≤ limit
PcFits limit l (exchanging local p) = (local < p) × (p ≤ limit) × (local ≤ l.queue.current)
