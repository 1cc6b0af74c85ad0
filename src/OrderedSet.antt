-- ===== src/OrderedSet.antt =====
-- `BTreeSet` over an integer key (`u64` nonces, addresses read as numbers), as its keys in
-- ascending order: the operations that crates/chain/src/nonce.rs and
-- crates/liquidator/src/discovery.rs call.
pub mod Laws
use alpharouting.Prelude.{
  ℕ, suc, ◌+◌, ◌≤◌, Bool, false, ◌||◌, Option, none, some, List, [], ◌∷◌, ltb, ◌==◌, if◌then◌else◌,
}

-- `BTreeSet::insert`: a key that is present stays as it is.
unfoldable pub insert : ℕ → List ℕ → List ℕ
insert k [] = k ∷ []
insert k (x ∷ xs) = if ltb k x then k ∷ x ∷ xs else (if k == x then x ∷ xs else x ∷ insert k xs)

-- `BTreeSet::pop_first`: the least key and the set without it.
unfoldable pub pop_first : List ℕ → Option (ℕ × List ℕ)
pop_first [] = none
pop_first (x ∷ xs) = some (x, xs)

-- `BTreeSet::extend`.
unfoldable pub extend : List ℕ → List ℕ → List ℕ
unfolding insert
extend set [] = set
extend set (k ∷ ks) = extend (insert k set) ks

-- The keys ascend strictly, from `low` on: the order in which the tree iterates.
abbrev pub AscendsFrom : ℕ → List ℕ → Type 0
AscendsFrom low [] = Unit
AscendsFrom low (x ∷ xs) = (low ≤ x) × AscendsFrom (suc x) xs

-- How often a key is listed.
abbrev pub count : ℕ → List ℕ → ℕ
count k [] = 0
count k (x ∷ xs) = (if x == k then 1 else 0) + count k xs

abbrev pub has : ℕ → List ℕ → Bool
has k xs = ltb 0 (count k xs)
