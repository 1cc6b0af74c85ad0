-- ===== src/Liquidator/Discovery/Steps.antt =====
-- crates/liquidator/src/discovery.rs: one round of the scan's loop.
use alpharouting.Prelude.{
  ℕ, suc, ◌+◌, ◌%◌, ◌^◌, ◌≤◌, ◌<◌, ◌≡◌, true, false, Option, none, some, List, min, arith, leb,
}
use alpharouting.Liquidator.Discovery.{
  BorrowerRegistry, Log, scanned, no_logs, window_end, scan_window, scan_from,
}

pub window_end-eq :
    (from head : ℕ)
    → head + 5000 < 2 ^ 64
    → from ≤ head
    → window_end from head ≡ min (from + 4999) head
unfolding window_end
window_end-eq from head h k = omega arith

pub next_from :
    (last to to' head : ℕ)
    → to ≡ min (last + 1 + 4999) head
    → last < head
    → head + 5000 < 2 ^ 64
    → to' ≡ to
    → (last < to) × (to ≤ head) × ((to + 1) % 2 ^ 64 ≡ to' + 1)
next_from last to to' head e h k p = (omega (arith, e), omega (arith, e), omega (arith, e, p))

module _ {S : Type 0} (get_logs : ℕ → ℕ → S → Option (List Log) × S) where
  -- One round of the loop, by what the provider answers.
  pub scan_done :
      (fuel head from : ℕ) (registry : BorrowerRegistry) (total_new : ℕ) (s : S)
      → leb from head ≡ false
      → scan_from get_logs (suc fuel) head from registry total_new s
        ≡ record { registry = registry; provider = s; outcome = scanned total_new }
  unfolding scan_from
  scan_done fuel head from registry total_new s e = rw (e, scan_from)

  pub scan_stop :
      (fuel head from : ℕ) (registry : BorrowerRegistry) (total_new : ℕ) (s : S)
      → leb from head ≡ true
      → (get_logs from (window_end from head) s).0 ≡ none
      → scan_from get_logs (suc fuel) head from registry total_new s ≡ record {
        registry = registry;
        provider = (get_logs from (window_end from head) s).1;
        outcome = no_logs from (window_end from head);
      }
  unfolding scan_from
  scan_stop fuel head from registry total_new s e p = rw (e, scan_from, p)

  pub scan_next :
      (fuel head from : ℕ) (registry : BorrowerRegistry) (total_new : ℕ) (s : S) (logs : List Log)
      → leb from head ≡ true
      → (get_logs from (window_end from head) s).0 ≡ some logs
      → scan_from get_logs (suc fuel) head from registry total_new s
        ≡ scan_from get_logs fuel head
            ((window_end from head + 1) % 2 ^ 64)
            (scan_window registry (window_end from head) logs).1
            (total_new + (scan_window registry (window_end from head) logs).0)
            (get_logs from (window_end from head) s).1
  unfolding scan_from
  scan_next fuel head from registry total_new s logs e p = rw (e, scan_from, p)
