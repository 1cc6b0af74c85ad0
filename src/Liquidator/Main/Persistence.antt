-- ===== src/Liquidator/Main/Persistence.antt =====
-- crates/liquidator/src/main.rs: the registry in the file, and what saves, loads and scans keep of
-- it.
use alpharouting.Prelude.{
  ℕ, ◌+◌, ◌^◌, ◌<◌, ◌≡◌, ◌⊎◌, sym, ap, ◌∙◌, subst, inl, inr, false, Bool-cases, Option-cases, some,
  List, [], ltb,
}
use alpharouting.OrderedSet.{AscendsFrom}
use alpharouting.Liquidator.Settings.{Settings}
use alpharouting.Liquidator.Discovery.{
  BorrowerRegistry, Log, Outcome, scanned, no_head, no_logs, out_of_fuel, scan_new_borrowers,
}
use alpharouting.Liquidator.Discovery.Coverage.{Covers, Covers-refl}
use alpharouting.Liquidator.Discovery.Complete.{IsFaithful, scan_new_borrowers-ScanFits}
use alpharouting.Liquidator.Discovery.File.{
  FileSystem, RegistryJson, Loaded, loaded, saved, load_or_default, save, IsReliable,
}
use alpharouting.Liquidator.Discovery.Restart.{
  Holds, load_or_default-absent, load_or_default-Holds, save-Holds,
}
use alpharouting.Liquidator.Main.{Rpc, scan, save_if_new}

loaded_eq : {a b : BorrowerRegistry} → loaded a ≡ loaded b → a ≡ b
loaded_eq e = cc

-- The registry of a first start.
abbrev pub start_registry : Settings → BorrowerRegistry
start_registry settings = record {
  last_scanned_block = settings.discovery_start_block;
  borrowers = [];
}

module _ (block_logs : ℕ → List Log) {S : Type 0} (rpc : Rpc S) where
  -- What is relied on of the provider: logs of a window are those of its blocks, and heads are
  -- real block numbers.
  pub record IsHonest : Type 0 where
    pub faithful : IsFaithful block_logs rpc.get_logs
    pub heads : (s : S) (head : ℕ) → (rpc.get_block_number s).0 ≡ some head → head + 5000 < 2 ^ 64

  pub scan-Covers :
      IsHonest
      → (registry : BorrowerRegistry) (s : S) → AscendsFrom 0 registry.borrowers
      → Covers block_logs registry (scan rpc registry s).registry
  unfolding scan scan_new_borrowers
  scan-Covers honest registry s o =
      let s' = (rpc.get_block_number s).1 in
      elim (Option-cases (rpc.get_block_number s).0) [
        | inl p ↦ rw (p, scan, scan_new_borrowers) (Covers-refl block_logs registry o)
        | inr (head, p) ↦
            let fits =
              scan_new_borrowers-ScanFits block_logs rpc.get_logs honest.faithful registry head s' o
                (honest.heads s head p) in
            rw (p, scan) fits.covers
      ]

module _ {W : Type 0} (fs : FileSystem W) (json : RegistryJson) (settings : Settings) where
  abbrev pub load : W → Loaded
  load w = load_or_default fs json settings.borrower_cache_path settings.discovery_start_block w

  module _ (block_logs : ℕ → List Log) where
    -- There is no file yet, or it holds a registry that is right for the blocks it says.
    abbrev pub Disk : W → Type 0
    Disk w =
        (fs.exists settings.borrower_cache_path w ≡ false)
        ⊎ ((registry : BorrowerRegistry) × Covers block_logs (start_registry settings) registry
            × Holds fs json settings.borrower_cache_path registry w)

    pub save_if_new-Disk :
        IsReliable fs json settings.borrower_cache_path
        → (outcome : Outcome) (registry : BorrowerRegistry) (w w' : W)
        → Covers block_logs (start_registry settings) registry
        → Disk w
        → save_if_new fs json settings.borrower_cache_path outcome registry w ≡ (saved, w')
        → Disk w'
    unfolding save_if_new
    save_if_new-Disk reliable (scanned n) registry w w' c d e = elim (Bool-cases (ltb 0 n)) [
      | inl q ↦
          let saves : save_if_new fs json settings.borrower_cache_path (scanned n) registry w
              ≡ save fs json registry settings.borrower_cache_path w =
            rw (q, save_if_new) in
          let done = sym saves ∙ e in
          inr (
            registry,
            c,
            subst (Holds fs json settings.borrower_cache_path registry) (ap (λ p. p.1) done) (
                save-Holds fs json settings.borrower_cache_path reliable registry w
                  (ap (λ p. p.0) done)),
          )
      | inr q ↦
          let keeps : save_if_new fs json settings.borrower_cache_path (scanned n) registry w
              ≡ (saved, w) =
            rw (q, save_if_new) in
          subst Disk (ap (λ p. p.1) (sym keeps ∙ e)) d
    ]
    save_if_new-Disk reliable no_head registry w w' c d e = subst Disk (ap (λ p. p.1) e) d
    save_if_new-Disk reliable (no_logs from to) registry w w' c d e = subst Disk (ap (λ p. p.1) e) d
    save_if_new-Disk reliable out_of_fuel registry w w' c d e = subst Disk (ap (λ p. p.1) e) d

    pub load-Covers :
        IsReliable fs json settings.borrower_cache_path
        → (w : W) (registry : BorrowerRegistry) → Disk w
        → load w ≡ loaded registry
        → Covers block_logs (start_registry settings) registry
    load-Covers reliable w registry (inl absent) e =
        let fresh =
          load_or_default-absent fs json settings.borrower_cache_path settings.discovery_start_block
            w absent in
        subst (Covers block_logs (start_registry settings)) (loaded_eq (sym fresh ∙ e))
          (Covers-refl block_logs (start_registry settings) tt)
    load-Covers reliable w registry (inr (r, c, h)) e =
        let kept =
          load_or_default-Holds fs json settings.borrower_cache_path reliable r
            settings.discovery_start_block w c.ordered h in
        subst (Covers block_logs (start_registry settings)) (loaded_eq (sym kept ∙ e)) c
