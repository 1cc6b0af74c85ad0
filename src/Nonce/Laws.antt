-- ===== src/Nonce/Laws.antt =====
-- crates/chain/src/nonce.rs: what single calls of the nonce queue promise.
use alpharouting.Prelude.{
  ℕ, zero, suc, ◌+◌, ◌≤◌, ◌<◌, ◌≡◌, refl, inl, inr, some, List, [], ◌∷◌, length, max, arith, ltb,
  ◌==◌, if◌then◌else◌,
}
use alpharouting.OrderedSet.{AscendsFrom, count}
use alpharouting.OrderedSet.Laws.{
  insert-AscendsFrom, count-insert, AscendsFrom-mono, count-le_one, count-below,
}
use alpharouting.Nonce.Ledger.Exact.{next_cases}
use alpharouting.Nonce.{
  NonceQueue, new, next, release, peek, released_count, reconcile_within, reconcile,
}

-- With nobody else at the counter, one round of the loop of `reconcile` is enough: it returns the
-- larger of the counter and what the chain reports, leaves the counter at that value, and leaves
-- the release pool alone.
pub reconcile_within-max :
    (fuel : ℕ) (q : NonceQueue) (chain_pending : ℕ)
    → let m = max q.current chain_pending in
      reconcile_within (suc fuel) q chain_pending ≡ some (m, record q { current = m })
unfolding reconcile_within
reconcile_within-max fuel q chain_pending = ground arith

pub reconcile_within-eq :
    (fuel : ℕ) (q : NonceQueue) (chain_pending : ℕ)
    → reconcile_within (suc fuel) q chain_pending ≡ some (reconcile q chain_pending)
unfolding reconcile_within reconcile
reconcile_within-eq fuel q chain_pending = ground arith

-- While the pool holds a nonce, `next` returns one of the pool that is at most any other of the
-- pool, takes it out of the pool, and leaves the rest of the pool and the counter as they were.
next_smallest :
    (q : NonceQueue) (m j : ℕ)
    → AscendsFrom 0 q.released
    → 0 < count m q.released
    → let (n, q') = next q in
      (n ≤ m)
      × (count j q.released ≡ (if n == j then 1 else 0) + count j q'.released)
      × AscendsFrom 0 q'.released
      × (peek q' ≡ peek q)
unfolding peek
next_smallest q m j s h = elim (next_cases q q.released refl) [
  | inl (n, rest, e, f) ↦
      ground (arith, count-below m (suc n) rest, AscendsFrom-mono 0 (suc n) rest)
  | inr (e, f) ↦ ground arith
]

-- `next` called `n` times.
unfoldable pub drain : ℕ → NonceQueue → List ℕ × NonceQueue
drain zero q = ([], q)
drain (suc n) q = let (nonce, q') = next q in let (rest, q'') = drain n q' in (nonce ∷ rest, q'')

unfoldable pub release_all : NonceQueue → List ℕ → NonceQueue
release_all q [] = q
release_all q (n ∷ ns) = release_all (release q n) ns

drain-pool :
    (pool : List ℕ) (current : ℕ)
    → drain (length pool) (record { current = current; released = pool })
      ≡ (pool, record { current = current; released = [] })
unfolding drain next
drain-pool [] current = refl
drain-pool (n ∷ rest) current = rw (drain-pool rest current)

release_all-pool :
    (ns : List ℕ) (q : NonceQueue) (n : ℕ)
    → AscendsFrom 0 q.released
    → AscendsFrom 0 (release_all q ns).released
      × (count n (release_all q ns).released
          ≡ (if ltb 0 (count n ns + count n q.released) then 1 else 0))
      × ((release_all q ns).current ≡ q.current)
unfolding release_all release
release_all-pool [] q n s = ground (arith, count-le_one n 0 q.released)
release_all-pool (k ∷ ks) q n s = ground (
  arith,
  release_all-pool ks (release q k) n (insert-AscendsFrom k 0 q.released (omega arith) s),
  count-insert k n 0 q.released,
)

-- Nonces released in any order, some of them more than once, all come back: as many calls of
-- `next` as the pool then holds return each of them, and each that the pool held before, exactly
-- once and in ascending order, and leave the pool empty and the counter where it was.
drain-release_all :
    (q : NonceQueue) (ns : List ℕ) (n : ℕ)
    → AscendsFrom 0 q.released
    → let q' = release_all q ns in
      let (out, after) = drain (released_count q') q' in
      AscendsFrom 0 out
      × (count n out ≡ (if ltb 0 (count n ns + count n q.released) then 1 else 0))
      × (after ≡ new (peek q))
unfolding released_count peek new
drain-release_all q ns n s =
    let q' = release_all q ns in
    let pool = release_all-pool ns q n s in
    rw (drain-pool q'.released q'.current, pool.2) (pool.0, pool.1, refl)
