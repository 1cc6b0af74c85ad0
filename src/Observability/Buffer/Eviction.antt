-- ===== src/Observability/Buffer/Eviction.antt =====
-- crates/observability/src/buffer.rs: what the buffer holds after a run of `record`.
use alpharouting.Prelude.{
  ℕ, zero, suc, ◌≢◌, ◌-◌, ◌≤◌, ◌<◌, ◌≡◌, refl, sym, ap, ◌∙◌, inl, inr, Bool-cases, List, [], ◌∷◌,
  ◌++◌, append_assoc, append-nil, length, drop, take_last, take_last-all, drop-count,
  take_last-snoc, take_last-take_last, length-take_last, max, min, arith, ◌==◌, if◌then◌else◌,
}
use alpharouting.Observability.Buffer.{ReplayBuffer, new, record_event, pop_front, last_n}

module _ {E : Type 0} where
  unfoldable pub record_all : ReplayBuffer E → List E → ReplayBuffer E
  record_all b [] = b
  record_all b (e ∷ es) = record_all (record_event b e) es

  -- The events are the last `capacity` of those recorded so far.
  pub record Holds (b : ReplayBuffer E) (history : List E) : Type 0 where
    pub holds : b.events ≡ take_last b.capacity history
    pub room : 0 < b.capacity

  pop_front-drop : (n : ℕ) (xs : List E) → pop_front (drop n xs) ≡ drop (suc n) xs
  pop_front-drop zero [] = refl
  pop_front-drop zero (x ∷ xs) = refl
  pop_front-drop (suc n) [] = refl
  pop_front-drop (suc n) (x ∷ xs) = pop_front-drop n xs

  pop_front-take_last :
      (n : ℕ) (xs : List E) → n < length xs → pop_front (take_last (suc n) xs) ≡ take_last n xs
  pop_front-take_last n xs h =
      pop_front-drop (length xs - suc n) xs
      ∙ drop-count (suc (length xs - suc n)) (length xs - n) xs (omega arith)

  -- The events that stay when the next one comes.
  kept :
      (n : ℕ) (events history : List E)
      → events ≡ take_last (suc n) history
      → (if length events == suc n then pop_front events else events) ≡ take_last n history
  kept n events history e = elim (Bool-cases (length events == suc n)) [
    | inl full ↦
        let size : length events ≡ suc n = ground arith in
        rw full (
          ap pop_front e
          ∙ pop_front-take_last n history
              (omega (arith, size, ap length e, length-take_last (suc n) history)))
    | inr room ↦
        let size : length events ≢ suc n = ground arith in
        let short : length history ≤ n =
          omega (arith, size, ap length e, length-take_last (suc n) history) in
        rw room
          (e ∙ take_last-all (suc n) history (omega arith) ∙ sym (take_last-all n history short))
  ]

  kept-snoc :
      (capacity : ℕ) (events history : List E) (e : E)
      → 0 < capacity
      → events ≡ take_last capacity history
      → (if length events == capacity then pop_front events else events) ++ e ∷ []
        ≡ take_last capacity (history ++ e ∷ [])
  kept-snoc zero events history e h p = absurd (omega arith)
  kept-snoc (suc n) events history e h p =
      ap (λ q. q ++ e ∷ []) (kept n events history p) ∙ sym (take_last-snoc n history e)

  record_event-Holds :
      (b : ReplayBuffer E) (history : List E) (e : E)
      → Holds b history
      → Holds (record_event b e) (history ++ e ∷ [])
  unfolding record_event
  record_event-Holds b history e h = record {
    holds = kept-snoc b.capacity b.events history e h.room h.holds;
    room = h.room;
  }

  capacity-record_event : (b : ReplayBuffer E) (e : E) → (record_event b e).capacity ≡ b.capacity
  unfolding record_event
  capacity-record_event b e = refl

  record_all-Holds :
      (b : ReplayBuffer E) (history es : List E)
      → Holds b history
      → Holds (record_all b es) (history ++ es)
  unfolding record_all
  record_all-Holds b history [] h = rw (append-nil history) h
  record_all-Holds b history (e ∷ es) h = rw (← append_assoc history (e ∷ []) es) (
      record_all-Holds (record_event b e) (history ++ e ∷ []) es (record_event-Holds b history e h))

  capacity-record_all : (b : ReplayBuffer E) (es : List E) → (record_all b es).capacity ≡ b.capacity
  unfolding record_all
  capacity-record_all b [] = refl
  capacity-record_all b (e ∷ es) =
      capacity-record_all (record_event b e) es ∙ capacity-record_event b e

  -- After any run of `record` on a new buffer it holds the most recent events, at most `capacity`
  -- of them and at least one if any was recorded (a capacity of 0 counts as 1), oldest first.
  pub record_all-events :
      (capacity : ℕ) (es : List E)
      → (record_all (new capacity) es).events ≡ take_last (max capacity 1) es
  unfolding new
  record_all-events capacity es =
      let b : ReplayBuffer E = new capacity in
      let start : Holds b [] = record {
        holds = sym (take_last-all (max capacity 1) [] (omega arith));
        room = omega arith;
      } in
      (record_all-Holds b [] es start).holds ∙ ap (λ k. take_last k es) (capacity-record_all b es)

  -- `last_n` of such a buffer returns the last `n` events recorded, in order, or as many as it
  -- still holds.
  last_n-record_all :
      (capacity n : ℕ) (es : List E)
      → last_n (record_all (new capacity) es) n ≡ take_last (min n (max capacity 1)) es
  unfolding last_n
  last_n-record_all capacity n es =
      ap (take_last n) (record_all-events capacity es) ∙ take_last-take_last n (max capacity 1) es
