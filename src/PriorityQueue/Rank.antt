-- ===== src/PriorityQueue/Rank.antt =====
-- crates/workers/src/priority_queue.rs: the order of the entries is the order of a number.
use alpharouting.Prelude.{ℕ, ◌+◌, ◌-◌, ◌*◌, ◌^◌, ◌<◌, ◌≡◌, ◌==◌, ap, some, arith}
use Prim.Native.Nat.{compare}
use alpharouting.PriorityQueue.{Entry, cmp, eq, partial_cmp}

module _ {ℓ} {T : Type ℓ} where
  -- The priority, and below it 64 bits in which an earlier submission is the greater number.
  abbrev pub rank : Entry T → ℕ
  rank e = e.priority * 2 ^ 64 + (2 ^ 64 - 1 - e.seq)

  compares : (a b : Entry T) → a.seq < 2 ^ 64 → b.seq < 2 ^ 64 → cmp a b ≡ compare (rank a) (rank b)
  unfolding cmp
  compares a b h k = ground arith

  agrees : (a b : Entry T) → a.seq < 2 ^ 64 → b.seq < 2 ^ 64 → eq a b ≡ (rank a == rank b)
  unfolding eq
  agrees a b h k = ground arith

  -- With numbers below 2 ^ 64 the entries are compared as their ranks are, by `Ord` and by
  -- `PartialOrd`, and are equal where their ranks are: the order is total, and `==` agrees with it.
  cmp-rank :
      (a b : Entry T)
      → a.seq < 2 ^ 64
      → b.seq < 2 ^ 64
      → (cmp a b ≡ compare (rank a) (rank b))
        × (partial_cmp a b ≡ some (compare (rank a) (rank b)))
        × (eq a b ≡ (rank a == rank b))
  unfolding partial_cmp
  cmp-rank a b h k = (compares a b h k, ap some (compares a b h k), agrees a b h k)
