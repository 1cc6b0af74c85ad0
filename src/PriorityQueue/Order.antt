-- ===== src/PriorityQueue/Order.antt =====
-- crates/workers/src/priority_queue.rs: the heap's entries in the order in which they are popped.
use alpharouting.Prelude.{
  ℕ, ◌<◌, ◌≡◌, ◌≢◌, refl, sym, ap, ◌∙◌, suc, true, false, List, [], ◌∷◌, length, map, All, arith,
  inl, inr, Bool-cases, if◌then◌else◌,
}
use alpharouting.PriorityQueue.Spec.{enqueue}
use alpharouting.PriorityQueue.{Entry, gt, take_greatest}

module _ {ℓ} {T : Type ℓ} where
  -- What `pop` shows of an entry.
  abbrev pub view : Entry T → ℕ × T
  view e = (e.priority, e.item)

  -- Into an ordered list of entries, before the first that it is greater than.
  unfoldable pub place : Entry T → List (Entry T) → List (Entry T)
  place e [] = e ∷ []
  place e (x ∷ xs) = if gt e x then e ∷ x ∷ xs else x ∷ place e xs

  unfoldable pub arrange : List (Entry T) → List (Entry T)
  unfolding place
  arrange [] = []
  arrange (e ∷ es) = place e (arrange es)

  abbrev pub IsFresh : ℕ → List (Entry T) → Type 0
  IsFresh n = All λ e. e.seq ≢ n

  -- No two entries have one number.
  abbrev pub Distinct : List (Entry T) → Type 0
  Distinct [] = Unit
  Distinct (e ∷ es) = IsFresh e.seq es × Distinct es

  abbrev pub Leads : Entry T → List (Entry T) → Type 0
  Leads m [] = Unit
  Leads m (x ∷ xs) = gt m x ≡ true

  gt_total : (a b : Entry T) → a.seq ≢ b.seq → gt a b ≡ false → gt b a ≡ true
  unfolding gt
  gt_total a b h e = ground arith

  place-Leads : (m : Entry T) (xs : List (Entry T)) → Leads m xs → place m xs ≡ m ∷ xs
  unfolding place
  place-Leads m [] h = refl
  place-Leads m (x ∷ xs) h = rw h

  Leads-place :
      (m e : Entry T) (xs : List (Entry T)) → gt m e ≡ true → Leads m xs → Leads m (place e xs)
  unfolding place
  Leads-place m e [] g h = g
  Leads-place m e (x ∷ xs) g h = ground arith

  -- What `take_greatest` does to the numbers, and to the order.
  take_greatest-IsFresh :
      (n : ℕ) (e : Entry T) (xs : List (Entry T))
      → e.seq ≢ n
      → IsFresh n xs
      → ((take_greatest e xs).0.seq ≢ n) × IsFresh n (take_greatest e xs).1
  unfolding take_greatest
  take_greatest-IsFresh n e [] h f = (h, tt)
  take_greatest-IsFresh n e (x ∷ xs) h f =
      let ih = take_greatest-IsFresh n x xs f.0 f.1 in ground arith

  pub take_greatest-arrange :
      (e : Entry T) (xs : List (Entry T))
      → Distinct (e ∷ xs)
      → let (m, rest) = take_greatest e xs in
        (arrange (e ∷ xs) ≡ m ∷ arrange rest) × Leads m (arrange rest) × Distinct (m ∷ rest)
  unfolding take_greatest arrange
  take_greatest-arrange e [] d = (refl, tt, (tt, tt))
  take_greatest-arrange e (x ∷ xs) d =
      let (m, rest) = take_greatest x xs in
      let ih = take_greatest-arrange x xs d.1 in
      let fresh = take_greatest-IsFresh e.seq x xs d.0.0 d.0.1 in
      elim (Bool-cases (gt e m)) [
        | inl g ↦
            rw (g, ih.0, place, g)
              (rw (place-Leads m (arrange rest) ih.1) (refl, g, ((fresh.0, fresh.1), ih.2)))
        | inr g ↦
            let h = gt_total e m (λ q. fresh.0 (sym q)) g in
            rw (g, ih.0, place, g)
              (
                refl,
                Leads-place m e (arrange rest) h ih.1,
                (((λ q. fresh.0 (sym q)), ih.2.0), (fresh.1, ih.2.1)),
              )
      ]

  -- A number that every entry's is below goes behind every entry of at least its priority.
  pub place-enqueue :
      (e : Entry T) (xs : List (Entry T))
      → All (λ x. x.seq < e.seq) xs
      → map view (place e xs) ≡ enqueue (view e) (map view xs)
  unfolding place gt enqueue
  place-enqueue e [] b = refl
  place-enqueue e (x ∷ xs) b = ground (arith, place-enqueue e xs b.1)

  pub place-below :
      (n : ℕ) (e : Entry T) (xs : List (Entry T))
      → e.seq < n
      → All (λ x. x.seq < n) xs
      → All (λ x. x.seq < n) (place e xs)
  unfolding place
  place-below n e [] h b = (h, tt)
  place-below n e (x ∷ xs) h b = ground (arith, place-below n e xs h b.1)

  pub arrange-below :
      (n : ℕ) (xs : List (Entry T)) → All (λ x. x.seq < n) xs → All (λ x. x.seq < n) (arrange xs)
  unfolding arrange
  arrange-below n [] b = tt
  arrange-below n (x ∷ xs) b = place-below n x (arrange xs) b.0 (arrange-below n xs b.1)

  pub take_greatest-below :
      (n : ℕ) (e : Entry T) (xs : List (Entry T))
      → All (λ x. x.seq < n) (e ∷ xs)
      → ((take_greatest e xs).0.seq < n) × All (λ x. x.seq < n) (take_greatest e xs).1
  unfolding take_greatest
  take_greatest-below n e [] b = (b.0, tt)
  take_greatest-below n e (x ∷ xs) b = ground (arith, take_greatest-below n x xs b.1)

  pub length-take_greatest :
      (e : Entry T) (xs : List (Entry T)) → length (take_greatest e xs).1 ≡ length xs
  unfolding take_greatest
  length-take_greatest e [] = refl
  length-take_greatest e (x ∷ xs) = ground (arith, length-take_greatest x xs)

  pub length-place : (e : Entry T) (xs : List (Entry T)) → length (place e xs) ≡ suc (length xs)
  unfolding place
  length-place e [] = refl
  length-place e (x ∷ xs) = ground (arith, length-place e xs)

  pub length-arrange : (xs : List (Entry T)) → length (arrange xs) ≡ length xs
  unfolding arrange
  length-arrange [] = refl
  length-arrange (x ∷ xs) = length-place x (arrange xs) ∙ ap suc (length-arrange xs)
