-- ===== src/PriorityQueue/Tests.antt =====
-- The unit tests of crates/workers/src/priority_queue.rs, and the theorems at concrete inputs.
use alpharouting.Prelude.{ℕ, true, ◌≡◌, refl, none, some, List, [], ◌∷◌, arith}
use alpharouting.PriorityQueue.{Entry, PriorityQueue, new, len, is_empty, try_push, pop, gt}
use alpharouting.PriorityQueue.Spec
use alpharouting.PriorityQueue.Spec.{
  Op, push, take_next, how_many, whether_empty, accepted, rejected, popped, counted, emptiness,
  of_priority,
}
use alpharouting.PriorityQueue.Refine.{answer, run, IsValid}
use alpharouting.PriorityQueue.Promises.{new_refines}

abbrev ops : List (Op ℕ)
ops =
    push 7 1
    ∷ push 8 250
    ∷ push 9 250
    ∷ push 6 3
    ∷ how_many
    ∷ take_next
    ∷ take_next
    ∷ take_next
    ∷ take_next
    ∷ whether_empty
    ∷ []

ops_replies :
    run (new 3) ops
    ≡ accepted
      ∷ accepted
      ∷ accepted
      ∷ rejected 3
      ∷ counted 3
      ∷ popped (some (250, 8))
      ∷ popped (some (250, 9))
      ∷ popped (some (1, 7))
      ∷ popped none
      ∷ emptiness true
      ∷ []
unfolding run new answer try_push pop gt len is_empty
ops_replies = refl

new_refines_example : run (new 3) ops ≡ Spec.run 3 [] ops
new_refines_example = new_refines 3 ops (omega arith)

-- Two entries, the one that came later on top of the list.
abbrev waiting : PriorityQueue ℕ
waiting = record {
  inner =
      record { priority = 250; seq = 1; item = 8 }
      ∷ record { priority = 1; seq = 0; item = 7 }
      ∷ [];
  capacity = 3;
  seq = 2;
}

waiting-IsValid : IsValid waiting
unfolding len
waiting-IsValid = omega arith

abbrev early : Entry ℕ
early = record { priority = 250; seq = 1; item = 8 }

abbrev late : Entry ℕ
late = record { priority = 250; seq = 4; item = 9 }
