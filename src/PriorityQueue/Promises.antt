-- ===== src/PriorityQueue/Promises.antt =====
-- crates/workers/src/priority_queue.rs: what a client of the queue can rely on.
use alpharouting.Prelude.{
  ℕ, ◌^◌, ◌≤◌, ◌<◌, ◌≡◌, ap, ◌∙◌, List, [], ◌∷◌, ◌++◌, length, map, arith, ◌==◌, if◌then◌else◌,
}
use alpharouting.PriorityQueue.{Entry, PriorityQueue, gt, new, len}
use alpharouting.PriorityQueue.Spec
use alpharouting.PriorityQueue.Spec.{
  Op, push, take_next, Reply, accepted, rejected, FallsFrom, enqueue, enqueue-FallsFrom,
  of_priority, of_priority-enqueue,
}
use alpharouting.PriorityQueue.Order.{arrange, place, view}
use alpharouting.PriorityQueue.Refine.{answer, run, contents, IsValid, run_refines, push_accepted}

-- The priorities do not rise along the list.
abbrev pub Falls {ℓ} : {T : Type ℓ} → List (ℕ × T) → Type 0
Falls [] = Unit
Falls ((p, a) ∷ rest) = FallsFrom p rest

module _ {ℓ} {T : Type ℓ} where
  -- A new queue answers any sequence of fewer than 2^64 calls as a list of at most `capacity`
  -- items does that keeps its items by falling priority and in the order of submission within one
  -- priority: the same items are accepted, rejected and popped, in the same order, and it tells the
  -- same length and whether it is empty.
  pub new_refines :
      (capacity : ℕ) (ops : List (Op T))
      → length ops < 2 ^ 64
      → run (new capacity) ops ≡ Spec.run capacity [] ops
  unfolding new contents arrange len
  new_refines capacity ops h =
      run_refines (new capacity) ops (record { distinct = tt; below = tt; bounded = omega arith })
        (omega arith)

  place-FallsFrom :
      (high : ℕ) (e : Entry T) (xs : List (Entry T))
      → e.priority ≤ high
      → FallsFrom high (map view xs)
      → FallsFrom high (map view (place e xs))
  unfolding place gt
  place-FallsFrom high e [] h f = (h, tt)
  place-FallsFrom high e (x ∷ xs) h f = ground (arith, place-FallsFrom x.priority e xs)

  place-Falls :
      (e : Entry T) (xs : List (Entry T)) → Falls (map view xs) → Falls (map view (place e xs))
  unfolding place gt
  place-Falls e [] f = tt
  place-Falls e (x ∷ xs) f = ground (arith, place-FallsFrom x.priority e xs)

  arrange-Falls : (xs : List (Entry T)) → Falls (map view (arrange xs))
  unfolding arrange
  arrange-Falls [] = tt
  arrange-Falls (x ∷ xs) = place-Falls x (arrange xs) (arrange-Falls xs)

  contents-Falls : (q : PriorityQueue T) → Falls (contents q)
  unfolding contents
  contents-Falls q = arrange-Falls q.inner

  enqueue_last :
      (r p : ℕ) (a : T) (items : List (ℕ × T))
      → Falls items
      → of_priority r (enqueue (p, a) items)
        ≡ (if p == r then of_priority r items ++ (p, a) ∷ [] else of_priority r items)
  enqueue_last r p a [] f = of_priority-enqueue 0 r p a [] f
  enqueue_last r p a ((k, b) ∷ rest) f =
      of_priority-enqueue k r p a ((k, b) ∷ rest) (omega arith, f)

  -- A push on a valid queue with room is accepted. What waits is then again by falling priority,
  -- the new item stands last among those of its priority, and the items of every other priority
  -- are those that waited before, in their order.
  push_fifo :
      (q : PriorityQueue T) (a : T) (p r : ℕ)
      → IsValid q
      → len q < q.capacity
      → let (reply, q') = answer q (push a p) in
        (reply ≡ accepted)
        × Falls (contents q')
        × (of_priority r (contents q') ≡ (
            if p == r
            then of_priority r (contents q) ++ (p, a) ∷ []
            else of_priority r (contents q)))
  push_fifo q a p r v h =
      let pushed = push_accepted q a p v h in
      let last = enqueue_last r p a (contents q) (contents-Falls q) in
      (pushed.0, contents-Falls (answer q (push a p)).1, ap (of_priority r) pushed.1 ∙ last)
