-- ===== src/Liquidator/Discovery/Requests.antt =====
-- crates/liquidator/src/discovery.rs: the windows for which the scan asks the provider.
use alpharouting.Prelude.{
  ℕ, zero, suc, ◌+◌, ◌-◌, ◌*◌, ◌%◌, ◌^◌, ◌≤◌, ◌<◌, ◌≡◌, refl, sym, ap, ◌∙◌, subst, inl, inr,
  Bool-cases, Option-cases, Option, some, List, [], ◌∷◌, ◌++◌, length, min, max, arith, leb,
}
use alpharouting.Liquidator.Discovery.{
  BorrowerRegistry, Log, Outcome, scanned, no_head, no_logs, out_of_fuel, Scan, window_end,
  scan_window, scan_from, scan_new_borrowers,
}
use alpharouting.Liquidator.Discovery.Steps.{window_end-eq, scan_done, scan_stop, scan_next}

-- Windows of five thousand blocks, one behind the other from `first` on; the last may be cut off at
-- the head.
abbrev pub Tiles : ℕ → ℕ → List (ℕ × ℕ) → Type 0
Tiles head first [] = Unit
Tiles head first ((from, to) ∷ rest) =
    (from ≡ first) × (from ≤ head) × (to ≡ min (from + 4999) head) × Tiles head (to + 1) rest

-- The block behind the windows.
abbrev pub next_of : ℕ → List (ℕ × ℕ) → ℕ
next_of first [] = first
next_of first ((from, to) ∷ rest) = next_of (to + 1) rest

next_of-snoc :
    (first from to : ℕ) (asked : List (ℕ × ℕ)) → next_of first (asked ++ (from, to) ∷ []) ≡ to + 1
next_of-snoc first from to [] = refl
next_of-snoc first from to ((a, b) ∷ rest) = next_of-snoc (b + 1) from to rest

Tiles-snoc :
    (head first from to : ℕ) (asked : List (ℕ × ℕ))
    → Tiles head first asked
    → from ≡ next_of first asked
    → from ≤ head
    → to ≡ min (from + 4999) head
    → Tiles head first (asked ++ (from, to) ∷ [])
Tiles-snoc head first from to [] t e h k = (e, h, k, tt)
Tiles-snoc head first from to ((a, b) ∷ rest) t e h k =
    (t.0, t.1, t.2, Tiles-snoc head (b + 1) from to rest t.3 e h k)

length-Tiles :
    (head first : ℕ) (asked : List (ℕ × ℕ))
    → Tiles head first asked
    → length asked * 5000 ≤ (head + 1 - first) + 4999
length-Tiles head first [] t = omega arith
length-Tiles head first ((from, to) ∷ rest) t =
    omega (arith, length-Tiles head (to + 1) rest t.3, t.0, t.1, t.2)

-- What the requests say of the end: with success they reach up to the head, and an error is of the
-- last of them.
abbrev pub EndsAt : ℕ → ℕ → List (ℕ × ℕ) → Outcome → Type 0
EndsAt head first asked (scanned total_new) = next_of first asked ≡ head + 1
EndsAt head first asked (no_logs from to) =
    (earlier : List (ℕ × ℕ)) × (asked ≡ earlier ++ (from, to) ∷ [])
EndsAt head first asked no_head = ⊥
EndsAt head first asked out_of_fuel = ⊥

-- The provider with a list of the windows that it was asked for.
abbrev pub recording :
    {S : Type 0}
    → (ℕ → ℕ → S → Option (List Log) × S)
    → ℕ
    → ℕ
    → List (ℕ × ℕ) × S
    → Option (List Log) × (List (ℕ × ℕ) × S)
recording get_logs from to (asked, s) =
    let (answer, s') = get_logs from to s in (answer, (asked ++ (from, to) ∷ [], s'))

module _ {S : Type 0} (get_logs : ℕ → ℕ → S → Option (List Log) × S) where
  -- The windows tile the blocks from `first` on, and are as few as that takes.
  pub record IsTiled (head first : ℕ) (out : Scan (List (ℕ × ℕ) × S)) : Type 0 where
    pub tiles : Tiles head first out.provider.0
    pub ends : EndsAt head first out.provider.0 out.outcome
    pub few : length out.provider.0 * 5000 ≤ (head + 1 - first) + 4999

  tiled :
      (head first : ℕ) (out : Scan (List (ℕ × ℕ) × S))
      → Tiles head first out.provider.0
      → EndsAt head first out.provider.0 out.outcome
      → IsTiled head first out
  tiled head first out t e = record {
    tiles = t;
    ends = e;
    few = length-Tiles head first out.provider.0 t;
  }

  scan_from-IsTiled :
      (fuel head first from : ℕ) (registry : BorrowerRegistry) (total_new : ℕ)
      (asked : List (ℕ × ℕ)) (s : S)
      → head + 5000 < 2 ^ 64
      → from ≤ head + 1
      → head + 1 - from < fuel
      → Tiles head first asked
      → from ≡ next_of first asked
      → IsTiled head first
          (scan_from (recording get_logs) fuel head from registry total_new (asked, s))
  scan_from-IsTiled zero head first from registry total_new asked s h le f t e =
      absurd (omega arith)
  scan_from-IsTiled (suc fuel) head first from registry total_new asked s h le f t e =
      let to = window_end from head in
      let asked' = asked ++ (from, to) ∷ [] in
      elim (Bool-cases (leb from head)) [
        | inr done ↦
            subst (IsTiled head first)
              (sym
                (scan_done (recording get_logs) fuel head from registry total_new (asked, s) done))
              (tiled head first _ t (ground (arith, e)))
        | inl more ↦
            let below : from ≤ head = ground arith in
            let end = window_end-eq from head h below in
            let t' = Tiles-snoc head first from to asked t e below end in
            elim (Option-cases (get_logs from to s).0) [
              | inl p ↦
                  subst (IsTiled head first)
                    (sym (
                      scan_stop (recording get_logs) fuel head from registry total_new (asked, s)
                        more p))
                    (tiled head first _ t' (asked, refl))
              | inr (logs, p) ↦
                  let (new, registry') = scan_window registry to logs in
                  let s' = (get_logs from to s).1 in
                  let behind = next_of-snoc first from to asked in
                  let next : (to + 1) % 2 ^ 64 ≡ to + 1 = omega (arith, end, below, h) in
                  let rest =
                    scan_from-IsTiled fuel head first (to + 1) registry' (total_new + new) asked' s'
                      h (omega (arith, end)) (omega (arith, end, below, f)) t' (sym behind) in
                  subst (IsTiled head first)
                    (sym (
                      scan_next (recording get_logs) fuel head from registry total_new (asked, s)
                        logs more p
                      ∙ ap
                          (λ k.
                            scan_from (recording get_logs) fuel head k registry' (total_new + new)
                              (asked', s'))
                          next))
                    rest
            ]
      ]

  -- The scan without the list of requests.
  abbrev pub forget : Scan (List (ℕ × ℕ) × S) → Scan S
  forget out = record { registry = out.registry; provider = out.provider.1; outcome = out.outcome }

  forget-scan_from :
      (fuel head from : ℕ) (registry : BorrowerRegistry) (total_new : ℕ) (asked : List (ℕ × ℕ))
      (s : S)
      → forget (scan_from (recording get_logs) fuel head from registry total_new (asked, s))
        ≡ scan_from get_logs fuel head from registry total_new s
  unfolding scan_from
  forget-scan_from zero head from registry total_new asked s = refl
  forget-scan_from (suc fuel) head from registry total_new asked s =
      let to = window_end from head in
      let asked' = asked ++ (from, to) ∷ [] in
      let s' = (get_logs from to s).1 in
      elim (Bool-cases (leb from head)) [
        | inr done ↦ rw (done, scan_from)
        | inl more ↦ elim (Option-cases (get_logs from to s).0) [
          | inl p ↦ rw (more, scan_from, p)
          | inr (logs, p) ↦
              let (new, registry') = scan_window registry to logs in
              ap forget (
                scan_next (recording get_logs) fuel head from registry total_new (asked, s) logs
                  more p)
              ∙ forget-scan_from fuel head ((to + 1) % 2 ^ 64) registry' (total_new + new) asked' s'
              ∙ sym (scan_next get_logs fuel head from registry total_new s logs more p)
        ]
      ]

  -- Whatever the provider answers, for a head that keeps clear of 2 ^ 64: the scan asks for windows
  -- that follow one another from the block after the last scanned one, none beyond the head, each of
  -- five thousand blocks but for one that the head cuts off, so as few as that takes. If it
  -- succeeds they reach up to the head, and an error names the last of them. To keep a list of the
  -- requests changes nothing else.
  pub scan_new_borrowers-IsTiled :
      (base : BorrowerRegistry) (head : ℕ) (s : S)
      → head + 5000 < 2 ^ 64
      → let out = scan_new_borrowers (recording get_logs) (some head) base ([], s) in
        IsTiled (max base.last_scanned_block head) (base.last_scanned_block + 1) out
        × (forget out ≡ scan_new_borrowers get_logs (some head) base s)
  unfolding scan_new_borrowers
  scan_new_borrowers-IsTiled base head s h =
      let last = base.last_scanned_block in
      let none_asked : List (ℕ × ℕ) = [] in
      elim (Bool-cases (leb head last)) [
        | inl e ↦
            rw (e, scan_new_borrowers) (tiled (max last head) (last + 1) _ tt (ground arith), refl)
        | inr e ↦
            let ahead : last < head = ground arith in
            let first : (last + 1) % 2 ^ 64 ≡ last + 1 = omega (arith, ahead, h) in
            let upto : head ≡ max last head = omega (arith, ahead) in
            let fuel = head - last + 1 in
            rw (e, scan_new_borrowers, first)
              (
                subst
                    (λ top.
                      IsTiled top (last + 1) (
                        scan_from (recording get_logs) fuel head (last + 1) base 0 (none_asked, s)))
                    upto
                    (scan_from-IsTiled fuel head (last + 1) (last + 1) base 0 none_asked s h
                      (omega (arith, ahead)) (omega (arith, ahead)) tt refl),
                forget-scan_from fuel head (last + 1) base 0 none_asked s,
              )
      ]
