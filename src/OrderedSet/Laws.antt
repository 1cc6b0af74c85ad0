-- ===== src/OrderedSet/Laws.antt =====
-- What the operations of the ordered set do to its order, its size and its keys.
use alpharouting.Prelude.{
  ◌||◌, true, Bool-cases, inl, inr, In, here, there, subst, ==_iff, ℕ, suc, ◌+◌, ◌≤◌, ◌<◌, ◌≡◌,
  refl, sym, List, [], ◌∷◌, length, arith, ◌==◌, if◌then◌else◌,
}
use alpharouting.OrderedSet.{has, extend, insert, AscendsFrom, count}

pub AscendsFrom-mono :
    (low high : ℕ) (xs : List ℕ) → low ≤ high → AscendsFrom high xs → AscendsFrom low xs
AscendsFrom-mono low high [] h s = tt
AscendsFrom-mono low high (x ∷ xs) h s = (omega arith, s.1)

-- A set whose keys start later does not hold an earlier key.
pub count-below : (k low : ℕ) (xs : List ℕ) → k < low → AscendsFrom low xs → count k xs ≡ 0
count-below k low [] h s = refl
count-below k low (x ∷ xs) h s = ground (arith, count-below k (suc x) xs)

-- In an ordered set a key is listed at most once.
pub count-le_one : (k low : ℕ) (xs : List ℕ) → AscendsFrom low xs → count k xs ≤ 1
count-le_one k low [] s = omega arith
count-le_one k low (x ∷ xs) s = ground (arith, count-le_one k (suc x) xs, count-below k (suc x) xs)

pub insert-AscendsFrom :
    (k low : ℕ) (xs : List ℕ) → low ≤ k → AscendsFrom low xs → AscendsFrom low (insert k xs)
unfolding insert
insert-AscendsFrom k low [] h s = omega arith
insert-AscendsFrom k low (x ∷ xs) h s =
    ground (arith, insert-AscendsFrom k (suc x) xs, AscendsFrom-mono (suc x) (suc k) xs)

-- An insertion adds its key once, and only if it was absent; every other key is kept.
pub count-insert :
    (k j low : ℕ) (xs : List ℕ)
    → AscendsFrom low xs
    → count j (insert k xs) ≡ (if k == j then 1 else count j xs)
unfolding insert
count-insert k j low [] s = ground arith
count-insert k j low (x ∷ xs) s =
    ground (arith, count-insert k j (suc x) xs, count-below j (suc x) xs, count-below k (suc x) xs)

-- An insertion of an absent key makes the set larger by one, of a present key leaves its size.
pub length-insert :
    (k low : ℕ) (xs : List ℕ)
    → AscendsFrom low xs
    → length (insert k xs) + count k xs ≡ length xs + 1
unfolding insert
length-insert k low [] s = omega arith
length-insert k low (x ∷ xs) s =
    ground (arith, length-insert k (suc x) xs, count-below k (suc x) xs)

-- An extension keeps the order, and adds the keys given to those that were there.
pub extend_lem :
    (ks : List ℕ) (xs : List ℕ) (j : ℕ)
    → AscendsFrom 0 xs
    → AscendsFrom 0 (extend xs ks) × (has j (extend xs ks) ≡ (has j xs || has j ks))
unfolding extend
extend_lem [] xs j s = (s, ground arith)
extend_lem (k ∷ ks) xs j s =
    let rest = extend_lem ks (insert k xs) j (insert-AscendsFrom k 0 xs (omega arith) s) in
    (rest.0, ground (arith, rest.1, count-insert k j 0 xs))

pub length-extend :
    (ks : List ℕ) (xs : List ℕ) → AscendsFrom 0 xs → length xs ≤ length (extend xs ks)
unfolding extend
length-extend [] xs s = omega arith
length-extend (k ∷ ks) xs s = omega (
  arith,
  length-extend ks (insert k xs) (insert-AscendsFrom k 0 xs (omega arith) s),
  length-insert k 0 xs s,
  count-le_one k 0 xs s,
)

pub has-In : (k : ℕ) (xs : List ℕ) → has k xs ≡ true → In k xs
has-In k [] h = cc
has-In k (x ∷ xs) h = elim (Bool-cases (x == k)) [
  | inl e ↦ subst (λ y. In k (y ∷ xs)) (sym ((==_iff x k).0 e)) here
  | inr e ↦ there (has-In k xs (ground arith))
]
