-- ===== src/Prelude/Suffix.antt =====
-- The last elements of a list, and Boolean filters.
use Prim.Native.Nat.{ℕ, zero, suc, ◌+◌, ◌-◌, ◌≤◌, min}
use mathlib.Core.Path.{◌≡◌, refl, sym, ap, ◌∙◌}
use mathlib.Core.Bool.{Bool}
use mathlib.Core.Logic.{inl, inr}
use mathlib.Core.List.{List, [], ◌∷◌, ◌++◌, reverse, reverse-cons, reverse-reverse, append-nil}
use native.Mathlib.Omega.{arith}
use alpharouting.Prelude.Tests.{Bool-cases}
use alpharouting.Prelude.Lists.{length, take, drop, filter, length-append, length-drop}

module _ {ℓ} {A : Type ℓ} where
  -- The last `n` elements, or all where there are fewer.
  abbrev pub take_last : ℕ → List A → List A
  take_last n xs = drop (length xs - n) xs

  pub length-take_last : (n : ℕ) (xs : List A) → length (take_last n xs) ≡ min n (length xs)
  length-take_last n xs = omega (arith, length-drop (length xs - n) xs)

  pub drop-zero : (xs : List A) (n : ℕ) → n ≡ 0 → drop n xs ≡ xs
  drop-zero xs zero e = refl
  drop-zero xs (suc n) e = absurd (omega arith)

  pub take_last-all : (n : ℕ) (xs : List A) → length xs ≤ n → take_last n xs ≡ xs
  take_last-all n xs h = drop-zero xs (length xs - n) (omega arith)

  drop-append : (n : ℕ) (xs ys : List A) → n ≤ length xs → drop n (xs ++ ys) ≡ drop n xs ++ ys
  drop-append zero xs ys h = refl
  drop-append (suc n) [] ys h = absurd (omega arith)
  drop-append (suc n) (x ∷ xs) ys h = drop-append n xs ys (omega arith)

  drop-nil : (n : ℕ) → drop {A = A} n [] ≡ []
  drop-nil zero = refl
  drop-nil (suc n) = refl

  drop-all : (n : ℕ) (xs : List A) → length xs ≤ n → drop n xs ≡ []
  drop-all n [] h = drop-nil n
  drop-all zero (x ∷ xs) h = absurd (omega arith)
  drop-all (suc n) (x ∷ xs) h = drop-all n xs (omega arith)

  pub drop-count : (n m : ℕ) (xs : List A) → n ≡ m → drop n xs ≡ drop m xs
  drop-count n m xs e = ap (λ k. drop k xs) e

  drop-drop : (n m : ℕ) (xs : List A) → drop n (drop m xs) ≡ drop (m + n) xs
  drop-drop n m [] = ap (drop n) (drop-nil m) ∙ drop-nil n ∙ sym (drop-nil (m + n))
  drop-drop n zero (x ∷ xs) = ap (λ k. drop k (x ∷ xs)) (omega arith)
  drop-drop n (suc m) (x ∷ xs) =
      drop-drop n m xs ∙ drop-count (suc (m + n)) (suc m + n) (x ∷ xs) (omega arith)

  -- The last `n` of a list that ends in `x`.
  pub take_last-snoc :
      (n : ℕ) (xs : List A) (x : A) → take_last (suc n) (xs ++ x ∷ []) ≡ take_last n xs ++ x ∷ []
  take_last-snoc n xs x =
      drop-count (length (xs ++ x ∷ []) - suc n) (length xs - n) (xs ++ x ∷ [])
        (omega (arith, length-append xs (x ∷ [])))
      ∙ drop-append (length xs - n) xs (x ∷ []) (omega arith)

  pub take_last-take_last :
      (n m : ℕ) (xs : List A) → take_last n (take_last m xs) ≡ take_last (min n m) xs
  take_last-take_last n m xs =
      drop-drop (length (take_last m xs) - n) (length xs - m) xs
      ∙ drop-count (length xs - m + (length (take_last m xs) - n)) (length xs - min n m) xs
          (omega (arith, length-take_last m xs))

  reverse-take : (n : ℕ) (ys : List A) → reverse (take n ys) ≡ take_last n (reverse ys)
  reverse-take zero ys = sym (drop-all (length (reverse ys) - 0) (reverse ys) (omega arith))
  reverse-take (suc n) [] = sym (drop-nil (0 - suc n))
  reverse-take (suc n) (y ∷ ys) =
      reverse-cons y (take n ys)
      ∙ ap (λ zs. zs ++ y ∷ []) (reverse-take n ys)
      ∙ sym (take_last-snoc n (reverse ys) y)
      ∙ ap (take_last (suc n)) (sym (reverse-cons y ys))

  pub take_last-zero : (xs : List A) → take_last 0 xs ≡ []
  take_last-zero xs = drop-all (length xs - 0) xs (omega arith)

  -- Taken from the back and turned round again.
  pub take_last-eq : (n : ℕ) (xs : List A) → reverse (take n (reverse xs)) ≡ take_last n xs
  take_last-eq n xs = reverse-take n (reverse xs) ∙ ap (take_last n) (reverse-reverse xs)

  pub filter-append :
      (p : A → Bool) (xs ys : List A) → filter p (xs ++ ys) ≡ filter p xs ++ filter p ys
  filter-append p [] ys = refl
  filter-append p (x ∷ xs) ys = elim (Bool-cases (p x)) [
    | inl e ↦ rw (e, filter-append p xs ys)
    | inr e ↦ rw (e, filter-append p xs ys)
  ]

  pub filter-reverse : (p : A → Bool) (xs : List A) → filter p (reverse xs) ≡ reverse (filter p xs)
  filter-reverse p [] = refl
  filter-reverse p (x ∷ xs) =
      rw (reverse-cons x xs, filter-append p (reverse xs) (x ∷ []), filter-reverse p xs)
        (elim (Bool-cases (p x)) [
          | inl e ↦ rw (e, reverse-cons x (filter p xs))
          | inr e ↦ rw (e, append-nil (reverse (filter p xs)))
        ])
