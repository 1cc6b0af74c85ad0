-- ===== src/PriorityQueue.antt =====
-- crates/workers/src/priority_queue.rs. The mutex makes each call one step, so the queue is a value
-- here. `BinaryHeap` is the list of its entries in any order; its `pop` takes the greatest by the
-- `Ord` of the entries.
pub mod Order
pub mod Rank
pub mod Spec
pub mod Refine
pub mod Promises
mod Tests
use alpharouting.Prelude.{
  ℕ, ◌+◌, ◌%◌, ◌^◌, Bool, true, false, Option, none, some, List, [], ◌∷◌, length, ltb, leb, ◌==◌,
  ◌&&◌, if◌then◌else◌,
}
use Prim.Native.Nat.{compare, Ordering}

pub record Entry {ℓ} (T : Type ℓ) : Type ℓ where
  pub priority : ℕ
  pub seq : ℕ
  pub item : T

pub record PriorityQueue {ℓ} (T : Type ℓ) : Type ℓ where
  pub inner : List (Entry T)
  pub capacity : ℕ
  pub seq : ℕ

pub data Pushed {ℓ} (T : Type ℓ) : Type ℓ where
  ok : PriorityQueue T → Pushed T
  -- `Err` with the capacity that its message names; the queue is as it was.
  full : ℕ → Pushed T

module _ {ℓ} {T : Type ℓ} where
  -- `Ord::cmp`: by priority, and at equal priorities the lower `seq` is the greater.
  unfoldable pub cmp : Entry T → Entry T → Ordering
  cmp self other = elim (compare self.priority other.priority) [
    | Ordering.eq ↦ compare other.seq self.seq
    | Ordering.lt ↦ Ordering.lt
    | Ordering.gt ↦ Ordering.gt
  ]

  -- `PartialEq::eq` and `PartialOrd::partial_cmp`.
  unfoldable pub eq : Entry T → Entry T → Bool
  eq self other = self.priority == other.priority && self.seq == other.seq

  unfoldable pub partial_cmp : Entry T → Entry T → Option Ordering
  unfolding cmp
  partial_cmp self other = some (cmp self other)

  pub gt : Entry T → Entry T → Bool
  unfolding cmp
  gt self other = elim (cmp self other) [ Ordering.gt ↦ true | _ ↦ false ]

  pub new : ℕ → PriorityQueue T
  new capacity = record { inner = []; capacity = capacity; seq = 0 }

  pub len : PriorityQueue T → ℕ
  len q = length q.inner

  pub is_empty : PriorityQueue T → Bool
  unfolding len
  is_empty q = len q == 0

  pub try_push : PriorityQueue T → T → ℕ → Pushed T
  unfolding len
  try_push q item priority =
      if leb q.capacity (len q)
      then full q.capacity
      else ok (record q { inner = entry ∷ q.inner; seq = (q.seq + 1) % 2 ^ 64 })
    where
      entry : Entry T
      entry = record { priority = priority; seq = q.seq; item = item }

  -- The greatest of `e` and the entries, and the others.
  pub take_greatest : Entry T → List (Entry T) → Entry T × List (Entry T)
  take_greatest e [] = (e, [])
  take_greatest e (x ∷ xs) =
      let (m, rest) = take_greatest x xs in if gt e m then (e, m ∷ rest) else (m, e ∷ rest)

  -- `BinaryHeap::pop`.
  pub heap_pop : List (Entry T) → Option (Entry T × List (Entry T))
  unfolding take_greatest
  heap_pop [] = none
  heap_pop (x ∷ xs) = some (take_greatest x xs)

  pub pop : PriorityQueue T → Option ((ℕ × T) × PriorityQueue T)
  unfolding heap_pop
  pop q = elim (heap_pop q.inner) [
    | none ↦ none
    | some (e, rest) ↦ some ((e.priority, e.item), record q { inner = rest })
  ]
