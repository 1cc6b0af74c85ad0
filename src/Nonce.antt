-- ===== src/Nonce.antt =====
-- crates/chain/src/nonce.rs: the nonce allocator as one caller sees it. `Arc`, the mutex and the
-- atomic are the fields themselves here; Nonce/Threads.antt has the interleavings.
pub mod Ledger
pub mod Laws
pub mod Threads
mod Tests
use alpharouting.Prelude.{
  ℕ, zero, suc, ◌+◌, ◌%◌, ◌^◌, Bool, true, false, Option, none, some, List, [], length, leb, ◌==◌,
  if◌then◌else◌,
}
use alpharouting.OrderedSet.{insert, pop_first}

pub record NonceQueue : Type 0 where
  pub current : ℕ
  pub released : List ℕ

pub new : ℕ → NonceQueue
new seed = record { current = seed; released = [] }

-- `AtomicU64::fetch_add(1)`, which wraps round.
pub fetch_add : NonceQueue → ℕ × NonceQueue
fetch_add q = (q.current, record q { current = (q.current + 1) % 2 ^ 64 })

pub next : NonceQueue → ℕ × NonceQueue
unfolding pop_first fetch_add
next q = elim (pop_first q.released) [
  | some (n, rest) ↦ (n, record q { released = rest })
  | none ↦ fetch_add q
]

pub release : NonceQueue → ℕ → NonceQueue
unfolding insert
release q nonce = record q { released = insert nonce q.released }

pub peek : NonceQueue → ℕ
peek q = q.current

pub released_count : NonceQueue → ℕ
released_count q = length q.released

-- `AtomicU64::compare_exchange`: whether it succeeded, and the state after it.
pub compare_exchange : NonceQueue → ℕ → ℕ → Bool × NonceQueue
compare_exchange q expected desired =
    if q.current == expected then (true, record q { current = desired }) else (false, q)

-- The loop of `reconcile`, at most `fuel` rounds of it; `none` means that they ran out.
pub reconcile_within : ℕ → NonceQueue → ℕ → Option (ℕ × NonceQueue)
unfolding compare_exchange
reconcile_within zero q chain_pending = none
reconcile_within (suc fuel) q chain_pending =
    let local = q.current in
    let (done, q') = compare_exchange q local chain_pending in
    let again = reconcile_within fuel q' chain_pending in
    if leb chain_pending local
    then some (local, q)
    else (if done then some (chain_pending, q') else again)

-- What the loop comes to when nobody else changes the counter (`reconcile_within-eq`).
pub reconcile : NonceQueue → ℕ → ℕ × NonceQueue
reconcile q chain_pending =
    if leb chain_pending q.current
    then (q.current, q)
    else (chain_pending, record q { current = chain_pending })
