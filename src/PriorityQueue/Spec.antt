-- ===== src/PriorityQueue/Spec.antt =====
-- What crates/workers/src/priority_queue.rs promises: a bounded list of the waiting items, by
-- falling priority and, within a priority, in the order of submission.
use alpharouting.Prelude.{
  ℕ, suc, ◌≤◌, ◌≡◌, refl, inl, inr, Bool, true, false, Bool-cases, Option, none, some, List, [],
  ◌∷◌, ◌++◌, length, filter, arith, leb, ltb, ◌==◌, if◌then◌else◌,
}

pub data Op {ℓ} (T : Type ℓ) : Type ℓ where
  push : T → ℕ → Op T
  take_next how_many whether_empty : Op T

pub data Reply {ℓ} (T : Type ℓ) : Type ℓ where
  accepted : Reply T
  rejected : ℕ → Reply T
  popped : Option (ℕ × T) → Reply T
  counted : ℕ → Reply T
  emptiness : Bool → Reply T

module _ {ℓ} {T : Type ℓ} where
  -- Behind everything of at least its priority.
  unfoldable pub enqueue : ℕ × T → List (ℕ × T) → List (ℕ × T)
  enqueue (p, a) [] = (p, a) ∷ []
  enqueue (p, a) ((r, b) ∷ rest) =
      if ltb r p then (p, a) ∷ (r, b) ∷ rest else (r, b) ∷ enqueue (p, a) rest

  -- One call on a list that may hold `capacity` items: the reply and the list after it.
  unfoldable pub answer : ℕ → List (ℕ × T) → Op T → Reply T × List (ℕ × T)
  answer capacity items (push a p) =
      if leb capacity (length items)
      then (rejected capacity, items)
      else (accepted, enqueue (p, a) items)
  answer capacity [] take_next = (popped none, [])
  answer capacity (x ∷ rest) take_next = (popped (some x), rest)
  answer capacity items how_many = (counted (length items), items)
  answer capacity [] whether_empty = (emptiness true, [])
  answer capacity (x ∷ rest) whether_empty = (emptiness false, x ∷ rest)

  unfoldable pub run : ℕ → List (ℕ × T) → List (Op T) → List (Reply T)
  run capacity items [] = []
  run capacity items (op ∷ rest) =
      let (reply, items') = answer capacity items op in reply ∷ run capacity items' rest

  -- The priorities do not rise along the list.
  abbrev pub FallsFrom : ℕ → List (ℕ × T) → Type 0
  FallsFrom high [] = Unit
  FallsFrom high ((p, a) ∷ rest) = (p ≤ high) × FallsFrom p rest

  pub enqueue-FallsFrom :
      (high p : ℕ) (a : T) (items : List (ℕ × T))
      → p ≤ high
      → FallsFrom high items
      → FallsFrom high (enqueue (p, a) items)
  unfolding enqueue
  enqueue-FallsFrom high p a [] h f = (h, tt)
  enqueue-FallsFrom high p a ((r, b) ∷ rest) h f = ground (arith, enqueue-FallsFrom r p a rest)

  abbrev pub of_priority : ℕ → List (ℕ × T) → List (ℕ × T)
  of_priority r = filter λ x. x.0 == r

  of_priority-below :
      (high r : ℕ) (items : List (ℕ × T))
      → suc high ≤ r
      → FallsFrom high items
      → of_priority r items ≡ []
  of_priority-below high r [] h f = refl
  of_priority-below high r ((p, b) ∷ rest) h f = ground (arith, of_priority-below p r rest)

  -- Among the items of its priority a new item comes last; the others keep their order.
  pub of_priority-enqueue :
      (high r p : ℕ) (a : T) (items : List (ℕ × T))
      → FallsFrom high items
      → of_priority r (enqueue (p, a) items)
        ≡ (if p == r then of_priority r items ++ (p, a) ∷ [] else of_priority r items)
  unfolding enqueue
  of_priority-enqueue high r p a [] f = ground arith
  of_priority-enqueue high r p a ((k, b) ∷ rest) f = elim (Bool-cases (ltb k p)) [
    | inl above ↦ elim (Bool-cases (p == r)) [
      | inl same ↦
          let none_left : of_priority r ((k, b) ∷ rest) ≡ [] =
            of_priority-below k r ((k, b) ∷ rest) (ground arith) (omega arith, f.1) in
          rw (above, none_left, same)
      | inr other ↦ rw (above, other)
    ]
    | inr behind ↦
        let ih = of_priority-enqueue k r p a rest f.1 in
        elim (Bool-cases (k == r)) [
          | inl here ↦ elim (Bool-cases (p == r)) [
            | inl same ↦ rw (behind, here, ih, same)
            | inr other ↦ rw (behind, here, ih, other)
          ]
          | inr there ↦ elim (Bool-cases (p == r)) [
            | inl same ↦ rw (behind, there, ih, same)
            | inr other ↦ rw (behind, there, ih, other)
          ]
        ]
  ]
