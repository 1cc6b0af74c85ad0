-- ===== src/Liquidator/Discovery/Coverage.antt =====
-- crates/liquidator/src/discovery.rs: the registry holds the borrowers of exactly the blocks that it
-- says it has scanned, whatever the provider does.
use alpharouting.Prelude.{
  ℕ, zero, suc, ◌+◌, ◌-◌, ◌≤◌, ◌≡◌, refl, sym, ap, ap₂, ◌∙◌, inl, inr, Bool, true, false,
  Option-cases, ◌||◌, List, [], ◌∷◌, ◌++◌, append_assoc, length, arith,
}
use alpharouting.OrderedSet.{AscendsFrom, count, has}
use alpharouting.OrderedSet.Laws.{extend_lem, length-extend}
use alpharouting.Liquidator.Discovery.{
  BorrowerRegistry, Log, insert_all, borrower_of, borrowers_of, scan_window,
}

-- The logs of `n` blocks from `from` on.
unfoldable pub logs_between : (ℕ → List Log) → ℕ → ℕ → List Log
logs_between block_logs from zero = []
logs_between block_logs from (suc n) = block_logs from ++ logs_between block_logs (suc from) n

pub logs_between-eq :
    (block_logs : ℕ → List Log) (from from' n n' : ℕ)
    → from ≡ from'
    → n ≡ n'
    → logs_between block_logs from n ≡ logs_between block_logs from' n'
logs_between-eq block_logs from from' n n' p q = ap₂ (logs_between block_logs) p q

logs_between-add :
    (block_logs : ℕ → List Log) (from n m : ℕ)
    → logs_between block_logs from (n + m)
      ≡ logs_between block_logs from n ++ logs_between block_logs (from + n) m
unfolding logs_between
logs_between-add block_logs from zero m =
    logs_between-eq block_logs from (from + 0) (0 + m) m (omega arith) (omega arith)
logs_between-add block_logs from (suc n) m =
    let now = block_logs from in
    let soon = logs_between block_logs (suc from) n in
    logs_between-eq block_logs from from (suc n + m) (suc (n + m)) refl (omega arith)
    ∙ ap (λ rest. now ++ rest) (logs_between-add block_logs (suc from) n m)
    ∙ sym (append_assoc now soon (logs_between block_logs (suc from + n) m))
    ∙ ap (λ rest. (now ++ soon) ++ rest)
        (logs_between-eq block_logs (suc from + n) (from + suc n) m m (omega arith) refl)

borrowers_of-append :
    (xs ys : List Log) → borrowers_of (xs ++ ys) ≡ borrowers_of xs ++ borrowers_of ys
unfolding borrowers_of
borrowers_of-append [] ys = refl
borrowers_of-append (x ∷ xs) ys = elim (Option-cases (borrower_of x)) [
  | inl e ↦ rw (e, borrowers_of) (borrowers_of-append xs ys)
  | inr (a, e) ↦ rw (e, borrowers_of) (ap (λ l. a ∷ l) (borrowers_of-append xs ys))
]

count-append : (k : ℕ) (xs ys : List ℕ) → count k (xs ++ ys) ≡ count k xs + count k ys
count-append k [] ys = omega arith
count-append k (x ∷ xs) ys = omega (arith, count-append k xs ys)

has-append : (k : ℕ) (xs ys : List ℕ) → has k (xs ++ ys) ≡ (has k xs || has k ys)
has-append k xs ys = ground (arith, count-append k xs ys)

cover_more :
    (known before found new all : Bool)
    → found ≡ new
    → all ≡ (before || new)
    → ((known || before) || found) ≡ (known || all)
cover_more true before found new all p q = refl
cover_more false before found new all p q = ap (λ b. before || b) p ∙ sym q

module _ (block_logs : ℕ → List Log) where
  -- The borrowers in the blocks after `last` up to `to`.
  abbrev pub found_between : ℕ → ℕ → List ℕ
  found_between last to = borrowers_of (logs_between block_logs (last + 1) (to - last))

  -- The registry has the borrowers of `base` and those of the blocks scanned since, and no others.
  pub record Covers (base registry : BorrowerRegistry) : Type 0 where
    pub ordered : AscendsFrom 0 registry.borrowers
    pub later : base.last_scanned_block ≤ registry.last_scanned_block
    pub exact :
        (a : ℕ)
        → has a registry.borrowers ≡ (
            has a base.borrowers
            || has a (found_between base.last_scanned_block registry.last_scanned_block))

  found_between-split :
      (a first middle last : ℕ)
      → first ≤ middle
      → middle ≤ last
      → has a (found_between first last)
        ≡ (has a (found_between first middle) || has a (found_between middle last))
  found_between-split a first middle last h k =
      let n = middle - first in
      let m = last - middle in
      ap (λ l. has a (borrowers_of (logs_between block_logs (first + 1) l))) (omega arith)
      ∙ ap (λ l. has a (borrowers_of l)) (logs_between-add block_logs (first + 1) n m)
      ∙ ap (has a) (
          borrowers_of-append (logs_between block_logs (first + 1) n)
            (logs_between block_logs (first + 1 + n) m))
      ∙ has-append a (found_between first middle)
          (borrowers_of (logs_between block_logs (first + 1 + n) m))
      ∙ ap
          (λ k.
            has a (found_between first middle)
            || has a (borrowers_of (logs_between block_logs k m)))
          (omega arith)

  -- A window that starts after the last block scanned extends the coverage.
  pub scan_window-Covers :
      (base registry : BorrowerRegistry) (to : ℕ) (logs : List Log)
      → registry.last_scanned_block ≤ to
      → logs
        ≡ logs_between block_logs
            (registry.last_scanned_block + 1)
            (to - registry.last_scanned_block)
      → Covers base registry
      → let (new, registry') = scan_window registry to logs in
        Covers base registry'
        × (registry'.last_scanned_block ≡ to)
        × (length registry'.borrowers ≡ length registry.borrowers + new)
  unfolding scan_window insert_all
  scan_window-Covers base registry to logs h e c =
      let found = borrowers_of logs in
      let longer = length-extend found registry.borrowers c.ordered in
      let ordered' = (extend_lem found registry.borrowers 0 c.ordered).0 in
      (
        record {
          ordered = ordered';
          later = omega (arith, c.later);
          exact = λ a.
              (extend_lem found registry.borrowers a c.ordered).1
              ∙ ap (λ b. b || has a found) (c.exact a)
              ∙ cover_more (has a base.borrowers) _ _ _ _ (ap (λ l. has a (borrowers_of l)) e) (
                  found_between-split a base.last_scanned_block registry.last_scanned_block to
                    c.later h);
        },
        refl,
        omega (arith, longer),
      )

  none_between : (a last : ℕ) → has a (found_between last last) ≡ false
  unfolding logs_between borrowers_of
  none_between a last =
      let nothing : last - last ≡ 0 = omega arith in
      ap (λ n. has a (borrowers_of (logs_between block_logs (last + 1) n))) nothing

  pub Covers-refl :
      (registry : BorrowerRegistry) → AscendsFrom 0 registry.borrowers → Covers registry registry
  Covers-refl registry o = record {
    ordered = o;
    later = omega arith;
    exact = λ a. ground (arith, none_between a registry.last_scanned_block);
  }

  -- What covers a registry that covers `base` covers `base`.
  pub Covers-trans :
      (base middle registry : BorrowerRegistry)
      → Covers base middle
      → Covers middle registry
      → Covers base registry
  Covers-trans base middle registry c d = record {
    ordered = d.ordered;
    later = omega (arith, c.later, d.later);
    exact = λ a.
        d.exact a
        ∙ ap (λ b. b || has a (found_between middle.last_scanned_block registry.last_scanned_block))
            (c.exact a)
        ∙ cover_more (has a base.borrowers) _ _ _ _ refl (
            found_between-split a base.last_scanned_block middle.last_scanned_block
              registry.last_scanned_block c.later d.later);
  }
