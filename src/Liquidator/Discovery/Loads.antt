-- ===== src/Liquidator/Discovery/Loads.antt =====
-- crates/liquidator/src/discovery.rs: what the registry's file comes to.
use alpharouting.Prelude.{
  ℕ, ◌≡◌, ◌⊎◌, refl, inl, inr, true, false, none, some, [], Bool-cases, Option-cases,
}
use alpharouting.Text.{Text}
use alpharouting.Liquidator.Discovery.{BorrowerRegistry}
use alpharouting.Liquidator.Discovery.File.{
  FileSystem, RegistryJson, Loaded, loaded, unreadable, malformed, load_or_default,
}

module _ {W : Type 0} (fs : FileSystem W) (json : RegistryJson) (path : Text) (start_block : ℕ)
    (w : W) where
  -- No file at the path, and a fresh registry that begins at the start block; a file whose text parses
  -- to the registry; a file that cannot be read; or one whose text does not parse.
  abbrev pub IsLoaded : Loaded → Type 0
  IsLoaded (loaded registry) =
      ((fs.exists path w ≡ false)
        × (registry ≡ record { last_scanned_block = start_block; borrowers = [] }))
      ⊎ ((fs.exists path w ≡ true)
          × ((raw : Text) × (fs.read_to_string path w ≡ some raw)
              × (json.from_str raw ≡ some registry)))
  IsLoaded unreadable = (fs.exists path w ≡ true) × (fs.read_to_string path w ≡ none)
  IsLoaded malformed =
      (fs.exists path w ≡ true)
      × ((raw : Text) × (fs.read_to_string path w ≡ some raw) × (json.from_str raw ≡ none))

  pub load_or_default-IsLoaded : IsLoaded (load_or_default fs json path start_block w)
  unfolding load_or_default
  load_or_default-IsLoaded = elim (Bool-cases (fs.exists path w)) [
    | inr p ↦ rw (load_or_default, p) (inl (p, refl))
    | inl p ↦ elim (Option-cases (fs.read_to_string path w)) [
      | inl q ↦ rw (load_or_default, p, q) (p, q)
      | inr (raw, q) ↦ elim (Option-cases (json.from_str raw)) [
        | inl r ↦ rw (load_or_default, p, q, r) (p, (raw, q, r))
        | inr (registry, r) ↦ rw (load_or_default, p, q, r) (inr (p, (raw, q, r)))
      ]
    ]
  ]

  pub IsLoaded-load_or_default :
      (registry : BorrowerRegistry)
      → IsLoaded (loaded registry)
      → load_or_default fs json path start_block w ≡ loaded registry
  unfolding load_or_default
  IsLoaded-load_or_default registry (inl (p, e)) = rw (load_or_default, p, e)
  IsLoaded-load_or_default registry (inr (p, (raw, q, r))) = rw (load_or_default, p, q, r)
