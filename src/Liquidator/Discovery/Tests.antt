-- ===== src/Liquidator/Discovery/Tests.antt =====
-- Scans of crates/liquidator/src/discovery.rs at concrete inputs: a chain with two `Borrow` logs and
-- a provider that answers a given number of requests.
use alpharouting.Prelude.{
  ℕ, zero, suc, ◌+◌, ◌-◌, ◌≡◌, refl, Option, none, some, List, [], ◌∷◌, arith, ◌==◌, if◌then◌else◌,
}
use alpharouting.Liquidator.Discovery.{BorrowerRegistry, Log, scanned, no_logs, scan_new_borrowers}
use alpharouting.Liquidator.Discovery.Coverage.{logs_between}
use alpharouting.Liquidator.Discovery.Requests.{
  recording, forget, IsTiled, scan_new_borrowers-IsTiled,
}
use alpharouting.Liquidator.Discovery.Complete.{IsFaithful, ScanFits, scan_new_borrowers-ScanFits}

abbrev borrow : ℕ → Log
borrow on_behalf_of = record { topics = 17 ∷ 1 ∷ 2 ∷ on_behalf_of ∷ [] }

abbrev block_logs : ℕ → List Log
block_logs n =
    if n == 4
    then borrow 9 ∷ []
    else (if n == 6 then borrow 5 ∷ borrow 9 ∷ record { topics = [] } ∷ [] else [])

abbrev get_logs : ℕ → ℕ → ℕ → Option (List Log) × ℕ
get_logs from to zero = (none, zero)
get_logs from to (suc s) = (some (logs_between block_logs from (to + 1 - from)), s)

get_logs-IsFaithful : IsFaithful block_logs get_logs
get_logs-IsFaithful from to zero logs e = cc
get_logs-IsFaithful from to (suc s) logs e = cc

abbrev registry : List ℕ → ℕ → BorrowerRegistry
registry borrowers last = record { last_scanned_block = last; borrowers = borrowers }

finds_the_new_borrowers :
    scan_new_borrowers get_logs (some 8) (registry (5 ∷ []) 3) 1
    ≡ record { registry = registry (5 ∷ 9 ∷ []) 8; provider = 0; outcome = scanned 1 }
unfolding scan_new_borrowers logs_between
finds_the_new_borrowers = refl

stops_where_the_provider_fails :
    scan_new_borrowers get_logs (some 8) (registry (5 ∷ []) 3) 0
    ≡ record { registry = registry (5 ∷ []) 3; provider = 0; outcome = no_logs 4 8 }
unfolding scan_new_borrowers
stops_where_the_provider_fails = refl

scan_new_borrowers-ScanFits_example :
    ScanFits block_logs get_logs
      (registry (5 ∷ []) 3)
      8
      (scan_new_borrowers get_logs (some 8) (registry (5 ∷ []) 3) 1)
scan_new_borrowers-ScanFits_example =
    scan_new_borrowers-ScanFits block_logs get_logs get_logs-IsFaithful (registry (5 ∷ []) 3) 8 1
      (omega arith, tt) (omega arith)

-- A provider that fails from the third request on.
abbrev twice : ℕ → ℕ → ℕ → Option (List Log) × ℕ
twice from to zero = (none, zero)
twice from to (suc s) = (some [], s)

asks_for_windows :
    (scan_new_borrowers (recording twice) (some 12000) (registry [] 3) ([], 2)).provider.0
    ≡ (4, 5003) ∷ (5004, 10003) ∷ (10004, 12000) ∷ []
unfolding scan_new_borrowers
asks_for_windows = refl

scan_new_borrowers-IsTiled_example :
    let out = scan_new_borrowers (recording twice) (some 12000) (registry [] 3) ([], 2) in
    IsTiled twice 12000 4 out
    × (forget twice out ≡ scan_new_borrowers twice (some 12000) (registry [] 3) 2)
scan_new_borrowers-IsTiled_example =
    scan_new_borrowers-IsTiled twice (registry [] 3) 12000 2 (omega arith)
