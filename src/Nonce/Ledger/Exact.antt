-- ===== src/Nonce/Ledger/Exact.antt =====
-- One call of the nonce queue keeps every nonce in exactly one place.
use alpharouting.Prelude.{
  ℕ, zero, suc, ◌+◌, ◌-◌, ◌^◌, ◌%◌, ◌≤◌, ◌<◌, ◌≡◌, refl, ◌⊎◌, inl, inr, ◌&&◌, List, [], ◌∷◌, ◌++◌,
  arith, leb, ltb, ◌==◌, if◌then◌else◌,
}
use alpharouting.OrderedSet.{AscendsFrom, count}
use alpharouting.OrderedSet.Laws.{insert-AscendsFrom, count-insert, AscendsFrom-mono}
use alpharouting.Nonce.{NonceQueue, next}
use alpharouting.Nonce.Ledger.{
  Ledger, Action, allocate, broadcast, abort, observe, AtMost, Inv, step, start, places, is_issued,
  range, erase,
}

pub count-append : (k : ℕ) (xs ys : List ℕ) → count k (xs ++ ys) ≡ count k xs + count k ys
count-append k [] ys = omega arith
count-append k (x ∷ xs) ys = omega (arith, count-append k xs ys)

pub count-range :
    (k start n : ℕ) → count k (range start n) ≡ (if leb start k && ltb k (start + n) then 1 else 0)
count-range k start zero = ground arith
count-range k start (suc n) = ground (arith, count-range k (suc start) n)

count-erase :
    (k j : ℕ) (xs : List ℕ)
    → 0 < count k xs
    → count j xs ≡ (if k == j then 1 else 0) + count j (erase k xs)
count-erase k j [] h = absurd (omega arith)
count-erase k j (x ∷ xs) h = ground (arith, count-erase k j xs)

-- The two ways of `next`: the least released nonce, or the counter.
pub next_cases :
    (q : NonceQueue) (pool : List ℕ)
    → q.released ≡ pool
    → ((n : ℕ) × (rest : List ℕ) × (pool ≡ n ∷ rest) × (next q ≡ (n, record q { released = rest })))
      ⊎ ((pool ≡ []) × (next q ≡ (q.current, record q { current = (q.current + 1) % 2 ^ 64 })))
unfolding next
next_cases q [] e = inr (refl, ground arith)
next_cases q (n ∷ rest) e = inl (n, rest, refl, ground arith)

pub step-ordered :
    (l : Ledger) (a : Action)
    → AscendsFrom 0 l.queue.released
    → AscendsFrom 0 (step l a).queue.released
unfolding step
step-ordered l allocate o = elim (next_cases l.queue l.queue.released refl) [
  | inl (n, rest, e, f) ↦ ground (arith, AscendsFrom-mono 0 (suc n) rest)
  | inr (e, f) ↦ ground arith
]
step-ordered l (broadcast n) o = ground arith
step-ordered l (abort n) o = ground (arith, insert-AscendsFrom n 0 l.queue.released)
step-ordered l (observe p) o = ground arith

pub step-exact :
    (seed : ℕ) (l : Ledger) (a : Action) (n : ℕ)
    → AscendsFrom 0 l.queue.released
    → seed ≤ l.queue.current
    → l.queue.current + 1 < 2 ^ 64
    → places l n ≡ is_issued seed l n
    → places (step l a) n ≡ is_issued seed (step l a) n
unfolding step
step-exact seed l allocate n o s w e = elim (next_cases l.queue l.queue.released refl) [
  | inl (m, rest, p, f) ↦ ground arith
  | inr (p, f) ↦ ground arith
]
step-exact seed l (broadcast m) n o s w e = ground (arith, count-erase m n l.held)
step-exact seed l (abort m) n o s w e =
    ground (arith, count-erase m n l.held, count-insert m n 0 l.queue.released)
step-exact seed l (observe p) n o s w e = ground (
  arith,
  count-append n (range l.queue.current (p - l.queue.current)) l.foreign,
  count-range n l.queue.current (p - l.queue.current),
)

-- The counter never falls, and one call raises it by one or to what the chain reported.
pub step-current :
    (l : Ledger) (a : Action) (limit : ℕ)
    → l.queue.current ≤ limit
    → AtMost limit a
    → l.queue.current + 1 < 2 ^ 64
    → (l.queue.current ≤ (step l a).queue.current) × ((step l a).queue.current ≤ limit + 1)
unfolding step
step-current l allocate limit h m w = elim (next_cases l.queue l.queue.released refl) [
  | inl (n, rest, p, f) ↦ ground arith
  | inr (p, f) ↦ ground arith
]
step-current l (broadcast n) limit h m w = ground arith
step-current l (abort n) limit h m w = ground arith
step-current l (observe p) limit h m w = ground arith

pub step-Inv :
    (seed : ℕ) (l : Ledger) (a : Action)
    → l.queue.current + 1 < 2 ^ 64
    → Inv seed l
    → seed ≤ (step l a).queue.current
    → Inv seed (step l a)
step-Inv seed l a w v h = record {
  ordered = step-ordered l a v.ordered;
  exact = λ n. step-exact seed l a n v.ordered v.from_seed w (v.exact n);
  from_seed = h;
}
