-- ===== src/Liquidator/Discovery/Complete.antt =====
-- crates/liquidator/src/discovery.rs: the whole scan, from the registry to the head of the chain,
-- for any provider that answers a window with the logs of its blocks.
use alpharouting.Prelude.{
  ℕ, zero, suc, ◌+◌, ◌-◌, ◌%◌, ◌^◌, ◌≤◌, ◌<◌, ◌≡◌, refl, sym, ap, ◌∙◌, subst, inl, inr, Bool-cases,
  Option-cases, Option, some, List, length, max, arith, leb,
}
use alpharouting.OrderedSet.{AscendsFrom}
use alpharouting.Liquidator.Discovery.{
  BorrowerRegistry, Log, Outcome, scanned, no_head, no_logs, out_of_fuel, Scan, window_end,
  scan_window, scan_from, scan_new_borrowers,
}
use alpharouting.Liquidator.Discovery.Steps.{
  window_end-eq, next_from, scan_done, scan_stop, scan_next,
}
use alpharouting.Liquidator.Discovery.Coverage.{
  logs_between, logs_between-eq, Covers, Covers-refl, scan_window-Covers,
}

-- How a scan up to `head` can end: with every block scanned and the new addresses counted, or at
-- the first block that is not scanned.
abbrev pub EndsWell : BorrowerRegistry → ℕ → BorrowerRegistry → Outcome → Type 0
EndsWell base head registry (scanned total_new) =
    (registry.last_scanned_block ≡ head)
    × (length registry.borrowers ≡ length base.borrowers + total_new)
EndsWell base head registry (no_logs from to) =
    (from ≡ registry.last_scanned_block + 1) × (from ≤ head)
EndsWell base head registry no_head = ⊥
EndsWell base head registry out_of_fuel = ⊥

module _ (block_logs : ℕ → List Log) {S : Type 0}
    (get_logs : ℕ → ℕ → S → Option (List Log) × S) where
  -- The provider may fail, and answers a window with the logs of its blocks.
  abbrev pub IsFaithful : Type 0
  IsFaithful =
      (from to : ℕ) (s : S) (logs : List Log)
      → (get_logs from to s).0 ≡ some logs
      → logs ≡ logs_between block_logs from (to + 1 - from)

  pub record ScanFits (base : BorrowerRegistry) (head : ℕ) (out : Scan S) : Type 0 where
    pub covers : Covers block_logs base out.registry
    pub within : out.registry.last_scanned_block ≤ head
    pub ends : EndsWell base head out.registry out.outcome

  scan_from-ScanFits :
      (faithful : IsFaithful) (base : BorrowerRegistry) (fuel head : ℕ)
      (registry : BorrowerRegistry) (total_new : ℕ) (s : S)
      → head + 5000 < 2 ^ 64
      → registry.last_scanned_block ≤ head
      → head - registry.last_scanned_block < fuel
      → Covers block_logs base registry
      → length registry.borrowers ≡ length base.borrowers + total_new
      → ScanFits base head
          (scan_from get_logs fuel head (registry.last_scanned_block + 1) registry total_new s)
  scan_from-ScanFits faithful base zero head registry total_new s h le f c t = absurd (omega arith)
  scan_from-ScanFits faithful base (suc fuel) head registry total_new s h le f c t =
      let last = registry.last_scanned_block in
      let from = last + 1 in
      let to = window_end from head in
      elim (Bool-cases (leb from head)) [
        | inr e ↦
            subst (ScanFits base head)
              (sym (scan_done get_logs fuel head from registry total_new s e))
              (record { covers = c; within = le; ends = (ground arith, t) })
        | inl e ↦
            let below : from ≤ head = ground arith in
            let end = window_end-eq from head h below in
            elim (Option-cases (get_logs from to s).0) [
              | inl p ↦
                  subst (ScanFits base head)
                    (sym (scan_stop get_logs fuel head from registry total_new s e p))
                    (record { covers = c; within = le; ends = (refl, below) })
              | inr (logs, p) ↦
                  let (new, registry') = scan_window registry to logs in
                  let s' = (get_logs from to s).1 in
                  let bounds = next_from last to to head end (omega (arith, below)) h refl in
                  let whole : logs ≡ logs_between block_logs from (to - last) =
                    faithful from to s logs p
                    ∙ logs_between-eq block_logs from from (to + 1 - from) (to - last) refl
                        (omega arith) in
                  let window =
                    scan_window-Covers block_logs base registry to logs (omega (arith, bounds.0))
                      whole c in
                  let next =
                    next_from last to registry'.last_scanned_block head end (omega (arith, below)) h
                      window.1 in
                  let rest =
                    scan_from-ScanFits faithful base fuel head registry' (total_new + new) s' h
                      (omega (arith, window.1, bounds.1)) (omega (arith, window.1, bounds.0))
                      window.0 (omega (arith, window.2, t)) in
                  subst (ScanFits base head)
                    (sym (
                      scan_next get_logs fuel head from registry total_new s logs e p
                      ∙ ap (λ k. scan_from get_logs fuel head k registry' (total_new + new) s')
                          next.2))
                    rest
            ]
      ]

  -- For a registry in ascending order and a head that keeps clear of 2 ^ 64: the scan comes to an
  -- end. The registry then holds the borrowers that it held and those in the logs of the blocks
  -- after its last scanned one up to the one it has now, and no others. Without an error of the
  -- provider that is the head, or the block it had if the head is not beyond, and the result is the
  -- number of new addresses; an error of the provider names the first block that is not scanned.
  pub scan_new_borrowers-ScanFits :
      IsFaithful
      → (base : BorrowerRegistry) (head : ℕ) (s : S) → AscendsFrom 0 base.borrowers
      → head + 5000 < 2 ^ 64
      → ScanFits base
          (max base.last_scanned_block head)
          (scan_new_borrowers get_logs (some head) base s)
  unfolding scan_new_borrowers
  scan_new_borrowers-ScanFits faithful base head s o h =
      let last = base.last_scanned_block in
      let c = Covers-refl block_logs base o in
      elim (Bool-cases (leb head last)) [
        | inl e ↦
            let idle : scan_new_borrowers get_logs (some head) base s
                ≡ record { registry = base; provider = s; outcome = scanned 0 } =
              rw (e, scan_new_borrowers) in
            subst (ScanFits base (max last head)) (sym idle)
              (record { covers = c; within = ground arith; ends = (ground arith, omega arith) })
        | inr e ↦
            let ahead : last < head = ground arith in
            let first : (last + 1) % 2 ^ 64 ≡ last + 1 = omega (arith, ahead, h) in
            let upto : head ≡ max last head = omega (arith, ahead) in
            let run : scan_from get_logs (head - last + 1) head (last + 1) base 0 s
                ≡ scan_new_borrowers get_logs (some head) base s =
              rw (e, scan_new_borrowers, first) in
            subst (λ top. ScanFits base top (scan_new_borrowers get_logs (some head) base s)) upto
              (subst (ScanFits base head) run (
                scan_from-ScanFits faithful base (head - last + 1) head base 0 s h
                  (omega (arith, ahead)) (omega arith) c (omega arith)))
      ]
