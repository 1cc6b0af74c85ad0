-- ===== src/Liquidator/Discovery/Restart.antt =====
-- crates/liquidator/src/discovery.rs: what was saved is what is loaded.
use alpharouting.Prelude.{
  ℕ, ◌≡◌, sym, subst, ◌∙◌, inl, inr, true, false, Bool-cases, Option-cases, some, [],
}
use alpharouting.Text.{Text}
use alpharouting.OrderedSet.{AscendsFrom}
use alpharouting.Liquidator.Discovery.{BorrowerRegistry}
use alpharouting.Liquidator.Discovery.File.{
  FileSystem, RegistryJson, loaded, saved, no_directory, not_serialised, not_written,
  load_or_default, make_parent, save, IsReliable,
}

module _ {W : Type 0} (fs : FileSystem W) (json : RegistryJson) where
  -- The file is there and holds what the registry is serialised to.
  pub record Holds (path : Text) (registry : BorrowerRegistry) (w : W) : Type 0 where
    pub raw : Text
    pub serialised : json.to_string_pretty registry ≡ some raw
    pub present : fs.exists path w ≡ true
    pub read : fs.read_to_string path w ≡ some raw

  pub load_or_default-absent :
      (path : Text) (start_block : ℕ) (w : W)
      → fs.exists path w ≡ false
      → load_or_default fs json path start_block w
        ≡ loaded (record { last_scanned_block = start_block; borrowers = [] })
  unfolding load_or_default
  load_or_default-absent path start_block w e = rw (e, load_or_default)

  pub load_or_default-Holds :
      (path : Text)
      → IsReliable fs json path
      → (registry : BorrowerRegistry) (start_block : ℕ) (w : W) → AscendsFrom 0 registry.borrowers
      → Holds path registry w
      → load_or_default fs json path start_block w ≡ loaded registry
  unfolding load_or_default
  load_or_default-Holds path reliable registry start_block w ordered h =
      rw (h.present, load_or_default, h.read, reliable.parses registry h.raw ordered h.serialised)

  pub save-Holds :
      (path : Text)
      → IsReliable fs json path
      → (registry : BorrowerRegistry) (w : W) → (save fs json registry path w).0 ≡ saved
      → Holds path registry (save fs json registry path w).1
  unfolding save
  save-Holds path reliable registry w e =
      let (made, w') = make_parent fs json path w in
      elim (Bool-cases made) [
        | inr m ↦
            let stops : (save fs json registry path w).0 ≡ no_directory = rw (m, save) in
            let same : no_directory ≡ saved = sym stops ∙ e in cc
        | inl m ↦ elim (Option-cases (json.to_string_pretty registry)) [
          | inl s ↦
              let stops : (save fs json registry path w).0 ≡ not_serialised = rw (m, save, s) in
              let same : not_serialised ≡ saved = sym stops ∙ e in cc
          | inr (raw, s) ↦ elim (Bool-cases (fs.write path raw w').0) [
            | inr v ↦
                let stops : (save fs json registry path w).0 ≡ not_written = rw (m, save, s, v) in
                let same : not_written ≡ saved = sym stops ∙ e in cc
            | inl v ↦
                let world : (save fs json registry path w).1 ≡ (fs.write path raw w').1 =
                  rw (m, save, s, v) in
                let (present, holds) = reliable.written raw w' v in
                subst (Holds path registry) (sym world)
                  (record { raw = raw; serialised = s; present = present; read = holds })
          ]
        ]
      ]

  -- With a file system that keeps what it wrote and a parser that reads what was serialised, a
  -- registry in ascending order that was saved is what a later start loads, whatever its start block.
  pub load_or_default-save :
      (path : Text)
      → IsReliable fs json path
      → (registry : BorrowerRegistry) (start_block : ℕ) (w : W) → AscendsFrom 0 registry.borrowers
      → (save fs json registry path w).0 ≡ saved
      → load_or_default fs json path start_block (save fs json registry path w).1 ≡ loaded registry
  load_or_default-save path reliable registry start_block w ordered e =
      load_or_default-Holds path reliable registry start_block (save fs json registry path w).1
        ordered (save-Holds path reliable registry w e)
