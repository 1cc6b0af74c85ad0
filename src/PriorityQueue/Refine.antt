-- ===== src/PriorityQueue/Refine.antt =====
-- crates/workers/src/priority_queue.rs refines the list of Spec.antt.
use alpharouting.Prelude.{
  ℕ, ◌+◌, ◌^◌, ◌≤◌, ◌<◌, ◌≡◌, refl, sym, ap, ◌∙◌, true, false, inl, inr, Bool-cases, leb→le, ◌⊎◌,
  subst, ◌%◌, none, some, List, [], ◌∷◌, length, length-map, map, All, arith, leb, Bool, ◌==◌,
}
use native.Mathlib.Nat.{mod-eq_of_lt}
use alpharouting.PriorityQueue.{
  Entry, PriorityQueue, ok, full, len, is_empty, try_push, take_greatest, heap_pop, pop,
}
use alpharouting.PriorityQueue.Spec
use alpharouting.PriorityQueue.Spec.{
  Op, push, take_next, how_many, whether_empty, Reply, accepted, rejected, popped, counted,
  emptiness, enqueue, FallsFrom,
}
use alpharouting.PriorityQueue.Order.{
  arrange, view, Distinct, IsFresh, place-enqueue, arrange-below, take_greatest-below,
  take_greatest-arrange, length-take_greatest, length-arrange,
}

module _ {ℓ} {T : Type ℓ} where
  -- One call on the queue of the code.
  unfoldable pub answer : PriorityQueue T → Op T → Reply T × PriorityQueue T
  answer q (push a p) = elim (try_push q a p) [
    | ok q' ↦ (accepted, q')
    | full capacity ↦ (rejected capacity, q)
  ]
  answer q take_next = elim (pop q) [
    | none ↦ (popped none, q)
    | some (x, q') ↦ (popped (some x), q')
  ]
  answer q how_many = (counted (len q), q)
  answer q whether_empty = (emptiness (is_empty q), q)

  unfoldable pub run : PriorityQueue T → List (Op T) → List (Reply T)
  run q [] = []
  run q (op ∷ rest) = let (reply, q') = answer q op in reply ∷ run q' rest

  -- What is waiting, in the order in which it will be popped.
  unfoldable pub contents : PriorityQueue T → List (ℕ × T)
  contents q = map view (arrange q.inner)

  -- The entries have different numbers below the next one, and there are at most `capacity`.
  pub record IsValid (q : PriorityQueue T) : Type 0 where
    pub distinct : Distinct q.inner
    pub below : All (λ e. e.seq < q.seq) q.inner
    pub bounded : len q ≤ q.capacity

  pub length-contents : (q : PriorityQueue T) → length (contents q) ≡ len q
  unfolding contents len
  length-contents q = length-map (arrange q.inner) view ∙ length-arrange q.inner

  below-IsFresh : (n : ℕ) (xs : List (Entry T)) → All (λ e. e.seq < n) xs → IsFresh n xs
  below-IsFresh n [] b = tt
  below-IsFresh n (x ∷ xs) b = ((λ e. omega arith), below-IsFresh n xs b.1)

  below_mono : (n : ℕ) (xs : List (Entry T)) → All (λ e. e.seq < n) xs → All (λ e. e.seq < n + 1) xs
  below_mono n [] b = tt
  below_mono n (x ∷ xs) b = (omega arith, below_mono n xs b.1)

  abbrev after_push : PriorityQueue T → T → ℕ → PriorityQueue T
  after_push q a p = record q {
    inner = record { priority = p; seq = q.seq; item = a } ∷ q.inner;
    seq = (q.seq + 1) % 2 ^ 64;
  }

  push_cases :
      (q : PriorityQueue T) (a : T) (p : ℕ)
      → ((q.capacity ≤ len q) × (answer q (push a p) ≡ (rejected q.capacity, q)))
        ⊎ ((len q < q.capacity) × (answer q (push a p) ≡ (accepted, after_push q a p)))
  unfolding answer try_push
  push_cases q a p = elim (Bool-cases (leb q.capacity (len q))) [
    | inl e ↦ inl (leb→le q.capacity (len q) e, rw (e, answer, try_push))
    | inr e ↦ inr (ground arith, rw (e, answer, try_push))
  ]

  take_cases :
      (q : PriorityQueue T) (inner : List (Entry T))
      → q.inner ≡ inner
      → ((inner ≡ []) × (answer q take_next ≡ (popped none, q)))
        ⊎ ((e : Entry T) × (es : List (Entry T)) × (inner ≡ e ∷ es)
            × (let (m, rest) = take_greatest e es in
                answer q take_next ≡ (popped (some (view m)), record q { inner = rest })))
  unfolding answer pop heap_pop
  take_cases q [] h = inl (refl, rw (h, pop, heap_pop))
  take_cases q (e ∷ es) h = inr (e, es, refl, rw (h, pop, heap_pop))

  push-IsValid :
      (q : PriorityQueue T) (a : T) (p : ℕ)
      → IsValid q
      → q.seq + 1 < 2 ^ 64
      → len q < q.capacity
      → IsValid (after_push q a p)
  unfolding len
  push-IsValid q a p v w h = record {
    distinct = (below-IsFresh q.seq q.inner v.below, v.distinct);
    below =
        subst (λ n. All (λ x. x.seq < n) (after_push q a p).inner) (sym (mod-eq_of_lt w))
          (omega arith, below_mono q.seq q.inner v.below);
    bounded = h;
  }

  take-IsValid :
      (q : PriorityQueue T) (e : Entry T) (es : List (Entry T))
      → q.inner ≡ e ∷ es
      → IsValid q
      → IsValid (record q { inner = (take_greatest e es).1 })
  unfolding len
  take-IsValid q e es h v = record {
    distinct = (take_greatest-arrange e es (subst Distinct h v.distinct)).2.1;
    below = (take_greatest-below q.seq e es (subst (All (λ x. x.seq < q.seq)) h v.below)).1;
    bounded = omega (arith, length-take_greatest e es, v.bounded, ap length h);
  }

  -- A call keeps the queue valid, raises its counter by at most one and keeps its capacity.
  pub answer-IsValid :
      (q : PriorityQueue T) (op : Op T)
      → IsValid q
      → q.seq + 1 < 2 ^ 64
      → let q' = (answer q op).1 in IsValid q' × (q'.seq ≤ q.seq + 1) × (q'.capacity ≡ q.capacity)
  unfolding answer
  answer-IsValid q (push a p) v w = elim (push_cases q a p) [
    | inl (h, e) ↦ rw e (v, omega arith, refl)
    | inr (h, e) ↦ rw e (push-IsValid q a p v w h, omega arith, refl)
  ]
  answer-IsValid q take_next v w = elim (take_cases q q.inner refl) [
    | inl (h, e) ↦ rw e (v, omega arith, refl)
    | inr (x, xs, h, e) ↦ rw e (take-IsValid q x xs h v, omega arith, refl)
  ]
  answer-IsValid q how_many v w = (v, omega arith, refl)
  answer-IsValid q whether_empty v w = (v, omega arith, refl)

  empty_answer :
      (capacity : ℕ) (items : List (ℕ × T)) (b : Bool)
      → b ≡ (length items == 0)
      → (emptiness b, items) ≡ Spec.answer capacity items whether_empty
  unfolding Spec.answer
  empty_answer capacity [] b e = ap (λ b. (emptiness b, [])) e
  empty_answer capacity (x ∷ rest) b e =
      let some_item : (length (x ∷ rest) == 0) ≡ false = ground arith in
      ap (λ b. (emptiness b, x ∷ rest)) (e ∙ some_item)

  -- A call on a valid queue replies, and leaves the queue holding, what the bounded list does.
  pub answer_refines :
      (q : PriorityQueue T) (op : Op T)
      → IsValid q
      → let (reply, q') = answer q op in
        (reply, contents q') ≡ Spec.answer q.capacity (contents q) op
  unfolding answer Spec.answer contents arrange is_empty
  answer_refines q (push a p) v = elim (push_cases q a p) [
    | inl (h, e) ↦
        let is_full : leb q.capacity (length (contents q)) ≡ true =
          rw (length-contents q) (ground arith) in
        rw (e, is_full)
    | inr (h, e) ↦
        let has_room : leb q.capacity (length (contents q)) ≡ false =
          rw (length-contents q) (ground arith) in
        let entry : Entry T = record { priority = p; seq = q.seq; item = a } in
        rw (e, has_room)
          (ap (λ items. (accepted, items))
            (place-enqueue entry (arrange q.inner) (arrange-below q.seq q.inner v.below)))
  ]
  answer_refines q take_next v = elim (take_cases q q.inner refl) [
    | inl (h, e) ↦ rw (e, h)
    | inr (x, xs, h, e) ↦
        let sorted = take_greatest-arrange x xs (subst Distinct h v.distinct) in
        rw e (rw (ap arrange h ∙ sorted.0))
  ]
  answer_refines q how_many v = ap (λ n. (counted n, contents q)) (sym (length-contents q))
  answer_refines q whether_empty v =
      empty_answer q.capacity (contents q) (is_empty q) (ap (λ n. n == 0) (sym (length-contents q)))

  -- With room, a push is accepted and enqueues its item.
  pub push_accepted :
      (q : PriorityQueue T) (a : T) (p : ℕ)
      → IsValid q
      → len q < q.capacity
      → ((answer q (push a p)).0 ≡ accepted)
        × (contents (answer q (push a p)).1 ≡ enqueue (p, a) (contents q))
  unfolding Spec.answer
  push_accepted q a p v h =
      let has_room : leb q.capacity (length (contents q)) ≡ false =
        rw (length-contents q) (ground arith) in
      let spec : ((answer q (push a p)).0, contents (answer q (push a p)).1)
          ≡ Spec.answer q.capacity (contents q) (push a p) =
        answer_refines q (push a p) v in
      let both = rw has_room at spec in (ap (λ out. out.0) both, ap (λ out. out.1) both)

  pub run_refines :
      (q : PriorityQueue T) (ops : List (Op T))
      → IsValid q
      → q.seq + length ops < 2 ^ 64
      → run q ops ≡ Spec.run q.capacity (contents q) ops
  unfolding run Spec.run
  run_refines q [] v w = refl
  run_refines q (op ∷ rest) v w =
      let kept = answer-IsValid q op v (omega arith) in
      let ih = run_refines (answer q op).1 rest kept.0 (omega (arith, kept.1)) in
      rw (ih, kept.2, ← answer_refines q op v)
