-- ===== src/Liquidator/Discovery.antt =====
-- crates/liquidator/src/discovery.rs: the registry of borrowers and the scan of `Borrow` logs. The
-- RPC provider is a parameter: `get_logs` answers a window of blocks, or fails, and may answer
-- otherwise each time (its state is threaded through). `u64` arithmetic wraps.
pub mod File
pub mod Loads
pub mod Restart
pub mod Coverage
pub mod Steps
pub mod Requests
pub mod Complete
mod Tests
use alpharouting.Prelude.{
  ℕ, zero, suc, ◌+◌, ◌-◌, ◌%◌, ◌^◌, Bool, true, false, Option, none, some, List, [], ◌∷◌, get_elem?,
  length, min, leb, if◌then◌else◌,
}
use alpharouting.OrderedSet.{extend}

pub record BorrowerRegistry : Type 0 where
  pub last_scanned_block : ℕ
  pub borrowers : List ℕ

-- A log's topics, as 256-bit numbers.
pub record Log : Type 0 where
  pub topics : List ℕ

abbrev pub default_block_chunk : ℕ
default_block_chunk = 5000

-- The registry after, and the number of addresses that were new.
pub insert_all : BorrowerRegistry → List ℕ → ℕ × BorrowerRegistry
unfolding extend
insert_all registry addrs =
    let before = length registry.borrowers in
    let borrowers = extend registry.borrowers addrs in
    (length borrowers - before, record registry { borrowers = borrowers })

-- Topic 3 without its first twelve bytes.
pub borrower_of : Log → Option ℕ
borrower_of log = elim (get_elem? log.topics 3) [
  | none ↦ none
  | some topic ↦ some (topic % 2 ^ 160)
]

-- `filter_map`.
unfoldable pub borrowers_of : List Log → List ℕ
unfolding borrower_of
borrowers_of [] = []
borrowers_of (log ∷ logs) = elim (borrower_of log) [
  | none ↦ borrowers_of logs
  | some a ↦ a ∷ borrowers_of logs
]

pub data Outcome : Type 0 where
  scanned : ℕ → Outcome
  -- The errors of the head's fetch and of a window's logs.
  no_head : Outcome
  no_logs : ℕ → ℕ → Outcome
  out_of_fuel : Outcome

pub record Scan (S : Type 0) : Type 0 where
  pub registry : BorrowerRegistry
  pub provider : S
  pub outcome : Outcome

-- `(from + DEFAULT_BLOCK_CHUNK - 1).min(head)`.
pub window_end : ℕ → ℕ → ℕ
window_end from head = min (((from + default_block_chunk) % 2 ^ 64 + 2 ^ 64 - 1) % 2 ^ 64) head

-- What the loop's body does with the logs of a window.
pub scan_window : BorrowerRegistry → ℕ → List Log → ℕ × BorrowerRegistry
unfolding insert_all borrowers_of
scan_window registry to logs =
    let (new, inserted) = insert_all registry (borrowers_of logs) in
    (new, record inserted { last_scanned_block = to })

module _ {S : Type 0} (get_logs : ℕ → ℕ → S → Option (List Log) × S) where
  -- The `while` loop, at most `fuel` rounds of it.
  pub scan_from : ℕ → ℕ → ℕ → BorrowerRegistry → ℕ → S → Scan S
  unfolding window_end scan_window
  scan_from zero head from registry total_new s = record {
    registry = registry;
    provider = s;
    outcome = out_of_fuel;
  }
  scan_from (suc fuel) head from registry total_new s = elim (leb from head) [
    | false ↦ record { registry = registry; provider = s; outcome = scanned total_new }
    | true ↦
        let to = window_end from head in
        let (answer, s') = get_logs from to s in
        elim answer [
          | none ↦ record { registry = registry; provider = s'; outcome = no_logs from to }
          | some logs ↦
              let (new, registry') = scan_window registry to logs in
              scan_from fuel head ((to + 1) % 2 ^ 64) registry' (total_new + new) s'
        ]
  ]

  -- `scan_new_borrowers`, on the answer of `get_block_number`. Each round covers a block at least.
  unfoldable pub scan_new_borrowers : Option ℕ → BorrowerRegistry → S → Scan S
  unfolding scan_from
  scan_new_borrowers none registry s = record {
    registry = registry;
    provider = s;
    outcome = no_head;
  }
  scan_new_borrowers (some head) registry s =
      let last = registry.last_scanned_block in
      if leb head last
      then record { registry = registry; provider = s; outcome = scanned 0 }
      else scan_from (head - last + 1) head ((last + 1) % 2 ^ 64) registry 0 s
