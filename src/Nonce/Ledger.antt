-- ===== src/Nonce/Ledger.antt =====
-- crates/chain/src/nonce.rs: where each nonce is over a history of calls. A caller pairs each
-- `next` with a broadcast or a `release`, as the head of that file asks.
pub mod Exact
pub mod Histories
use alpharouting.Prelude.{
  ℕ, zero, suc, ◌+◌, ◌-◌, ◌^◌, ◌%◌, ◌≤◌, ◌<◌, ◌≡◌, refl, ◌⊎◌, inl, inr, Bool, true, false, ◌&&◌,
  Option, none, some, List, [], ◌∷◌, ◌++◌, length, All, max, arith, leb, ltb, ◌==◌, if◌then◌else◌,
}
use alpharouting.OrderedSet.{insert, pop_first, AscendsFrom, count}
use alpharouting.OrderedSet.Laws.{insert-AscendsFrom, count-insert, AscendsFrom-mono}
use alpharouting.Nonce.{NonceQueue, new, next, release, reconcile, reconcile_within}

-- The first `n` numbers from `start` on.
abbrev pub range : ℕ → ℕ → List ℕ
range start zero = []
range start (suc n) = start ∷ range (suc start) n

-- One occurrence fewer.
abbrev pub erase : ℕ → List ℕ → List ℕ
erase k [] = []
erase k (x ∷ xs) = if x == k then xs else x ∷ erase k xs

-- Besides the queue: the nonces that callers hold, those that they broadcast, and those that the
-- chain had seen before `reconcile` jumped over them.
pub record Ledger : Type 0 where
  pub queue : NonceQueue
  pub held : List ℕ
  pub sent : List ℕ
  pub foreign : List ℕ

pub data Action : Type 0 where
  allocate : Action
  broadcast : ℕ → Action
  abort : ℕ → Action
  observe : ℕ → Action

abbrev pub is_held : Ledger → ℕ → Bool
is_held l n = ltb 0 (count n l.held)

-- A caller broadcasts or aborts only what it holds.
unfoldable pub step : Ledger → Action → Ledger
unfolding next release reconcile
step l allocate = let (n, q) = next l.queue in record l { queue = q; held = n ∷ l.held }
step l (broadcast n) =
    if is_held l n then record l { held = erase n l.held; sent = n ∷ l.sent } else l
step l (abort n) =
    if is_held l n then record l { queue = release l.queue n; held = erase n l.held } else l
step l (observe p) = record l {
  queue = (reconcile l.queue p).1;
  foreign = range l.queue.current (p - l.queue.current) ++ l.foreign;
}

unfoldable pub run : Ledger → List Action → Ledger
unfolding step
run l [] = l
run l (a ∷ rest) = run (step l a) rest

unfoldable pub start : ℕ → Ledger
unfolding new
start seed = record { queue = new seed; held = []; sent = []; foreign = [] }

-- How often a nonce is in one of the four places.
abbrev pub places : Ledger → ℕ → ℕ
places l n = count n l.held + count n l.sent + count n l.queue.released + count n l.foreign

abbrev pub is_issued : ℕ → Ledger → ℕ → ℕ
is_issued seed l n = if leb seed n && ltb n l.queue.current then 1 else 0

-- The chain reports no more than the limit.
abbrev pub AtMost : ℕ → Action → Type 0
AtMost limit (observe p) = p ≤ limit
AtMost limit allocate = Unit
AtMost limit (broadcast n) = Unit
AtMost limit (abort n) = Unit

-- A history from a seed in which the counter stays clear of the end of `u64`: the seed and what
-- the chain reports are at most the limit, and each call adds at most one.
pub record Fits (seed limit : ℕ) (actions : List Action) : Type 0 where
  pub seed_within : seed ≤ limit
  pub reports_within : All (AtMost limit) actions
  pub no_wrap : limit + length actions < 2 ^ 64

-- The invariant: the pool is ordered, and each nonce from the seed up to the counter is in exactly
-- one place, once; any other is nowhere.
pub record Inv (seed : ℕ) (l : Ledger) : Type 0 where
  pub ordered : AscendsFrom 0 l.queue.released
  pub exact : (n : ℕ) → places l n ≡ is_issued seed l n
  pub from_seed : seed ≤ l.queue.current
