-- ===== src/Liquidator/Select/Maxima.antt =====
-- crates/liquidator/src/select.rs: what `filter` and `max_by_key` find together.
use alpharouting.Prelude.{
  ℕ, ◌≤◌, ◌≡◌, ◌⊎◌, refl, sym, subst, inl, inr, Bool, true, false, Option, none, some, Bool-cases,
  List, [], ◌∷◌, In, here, there, All, filter, arith, leb,
}
use alpharouting.Liquidator.Select.{max_from, max_by_key}

-- What a maximum over the passing elements is.
pub record IsMax {A : Type 0} (test : A → Bool) (key : A → ℕ) (xs : List A) (m : A) : Type 0 where
  pub member : In m xs
  pub passes : test m ≡ true
  pub greatest : All (λ x. test x ≡ true → key x ≤ key m) xs

module _ {A : Type 0} (test : A → Bool) (key : A → ℕ) where
  -- No passing element is above `m`.
  abbrev Bounds : A → List A → Type 0
  Bounds m = All λ x. test x ≡ true → key x ≤ key m

  -- The best of `best` and the passing elements.
  abbrev IsBest : A → List A → A → Type 0
  IsBest best xs m = (key best ≤ key m) × Bounds m xs × ((m ≡ best) ⊎ (In m xs × (test m ≡ true)))

  IsBest-skip :
      (best x : A) (xs : List A) (m : A)
      → test x ≡ false
      → IsBest best xs m
      → IsBest best (x ∷ xs) m
  IsBest-skip best x xs m e (above, bounds, inl q) = (above, ((λ p. cc), bounds), inl q)
  IsBest-skip best x xs m e (above, bounds, inr (i, t)) =
      (above, ((λ p. cc), bounds), inr (there i, t))

  IsBest-take :
      (best x : A) (xs : List A) (m : A)
      → test x ≡ true
      → key best ≤ key x
      → IsBest x xs m
      → IsBest best (x ∷ xs) m
  IsBest-take best x xs m e h (above, bounds, inl q) = (
    omega arith,
    ((λ p. above), bounds),
    inr (subst (λ y. In y (x ∷ xs)) (sym q) here, subst (λ y. test y ≡ true) (sym q) e),
  )
  IsBest-take best x xs m e h (above, bounds, inr (i, t)) =
      (omega arith, ((λ p. above), bounds), inr (there i, t))

  IsBest-keep :
      (best x : A) (xs : List A) (m : A)
      → key x ≤ key best
      → IsBest best xs m
      → IsBest best (x ∷ xs) m
  IsBest-keep best x xs m h (above, bounds, inl q) = (above, ((λ p. omega arith), bounds), inl q)
  IsBest-keep best x xs m h (above, bounds, inr (i, t)) =
      (above, ((λ p. omega arith), bounds), inr (there i, t))

  max_from-filter : (best : A) (xs : List A) → IsBest best xs (max_from key best (filter test xs))
  unfolding max_from
  max_from-filter best [] = (omega arith, tt, inl refl)
  max_from-filter best (x ∷ xs) = elim (Bool-cases (test x)) [
    | inl e ↦ elim (Bool-cases (leb (key best) (key x))) [
      | inl l ↦
          let step : max_from key best (filter test (x ∷ xs)) ≡ max_from key x (filter test xs) =
            rw (e, max_from, l) in
          subst (IsBest best (x ∷ xs)) (sym step)
            (IsBest-take best x xs _ e (ground arith) (max_from-filter x xs))
      | inr l ↦
          let step : max_from key best (filter test (x ∷ xs)) ≡ max_from key best (filter test xs) =
            rw (e, max_from, l) in
          subst (IsBest best (x ∷ xs)) (sym step)
            (IsBest-keep best x xs _ (ground arith) (max_from-filter best xs))
    ]
    | inr e ↦
        let step : max_from key best (filter test (x ∷ xs)) ≡ max_from key best (filter test xs) =
          rw e in
        subst (IsBest best (x ∷ xs)) (sym step)
          (IsBest-skip best x xs _ e (max_from-filter best xs))
  ]

  IsMax-first :
      (x : A) (xs : List A) (m : A) → test x ≡ true → IsBest x xs m → IsMax test key (x ∷ xs) m
  IsMax-first x xs m e (above, bounds, inl q) = record {
    member = subst (λ y. In y (x ∷ xs)) (sym q) here;
    passes = subst (λ y. test y ≡ true) (sym q) e;
    greatest = ((λ p. above), bounds);
  }
  IsMax-first x xs m e (above, bounds, inr (i, t)) = record {
    member = there i;
    passes = t;
    greatest = ((λ p. above), bounds);
  }

  -- The maximum of the passing elements exists unless none passes.
  abbrev pub Finds : List A → Option A → Type 0
  Finds xs found =
      ((found ≡ none) × All (λ x. test x ≡ false) xs)
      ⊎ ((m : A) × (found ≡ some m) × IsMax test key xs m)

  Finds-skip :
      (x : A) (xs : List A) (found : Option A)
      → test x ≡ false
      → Finds xs found
      → Finds (x ∷ xs) found
  Finds-skip x xs found e (inl (p, q)) = inl (p, (e, q))
  Finds-skip x xs found e (inr (m, p, v)) = inr (
    m,
    p,
    record { member = there v.member; passes = v.passes; greatest = ((λ p. cc), v.greatest) },
  )

  pub max_by_key-filter : (xs : List A) → Finds xs (max_by_key key (filter test xs))
  unfolding max_by_key
  max_by_key-filter [] = inl (refl, tt)
  max_by_key-filter (x ∷ xs) = elim (Bool-cases (test x)) [
    | inl e ↦
        let step : max_by_key key (filter test (x ∷ xs)) ≡ some (max_from key x (filter test xs)) =
          rw e in
        inr (max_from key x (filter test xs), step, IsMax-first x xs _ e (max_from-filter x xs))
    | inr e ↦
        let step : max_by_key key (filter test (x ∷ xs)) ≡ max_by_key key (filter test xs) = rw e in
        subst (Finds (x ∷ xs)) (sym step) (Finds-skip x xs _ e (max_by_key-filter xs))
  ]
