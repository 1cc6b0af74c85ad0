-- ===== src/Liquidator/Discovery/File.antt =====
-- crates/liquidator/src/discovery.rs: the registry's file. The file system and serde_json are
-- parameters; any call of theirs may fail.
use alpharouting.Prelude.{ℕ, ◌≡◌, Bool, true, false, Option, none, some, [], if◌then◌else◌}
use alpharouting.Text.{Text}
use alpharouting.OrderedSet.{AscendsFrom}
use alpharouting.Liquidator.Discovery.{BorrowerRegistry}

-- `std::fs` and `Path::parent`; a write and the creation of a directory say whether they succeeded.
pub record FileSystem (W : Type 0) : Type 0 where
  pub parent : Text → Option Text
  pub exists : Text → W → Bool
  pub read_to_string : Text → W → Option Text
  pub create_dir_all : Text → W → Bool × W
  pub write : Text → Text → W → Bool × W

-- `serde_json` at `BorrowerRegistry`.
pub record RegistryJson : Type 0 where
  pub to_string_pretty : BorrowerRegistry → Option Text
  pub from_str : Text → Option BorrowerRegistry

pub data Loaded : Type 0 where
  loaded : BorrowerRegistry → Loaded
  -- The errors of reading and of parsing.
  unreadable malformed : Loaded

pub data Saved : Type 0 where
  saved : Saved
  -- The errors of the directory, of the serialisation and of the write.
  no_directory not_serialised not_written : Saved

module _ {W : Type 0} (fs : FileSystem W) (json : RegistryJson) where
  unfoldable pub load_or_default : Text → ℕ → W → Loaded
  load_or_default path start_block w = elim (fs.exists path w) [
    | false ↦ loaded (record { last_scanned_block = start_block; borrowers = [] })
    | true ↦ elim (fs.read_to_string path w) [
      | none ↦ unreadable
      | some raw ↦ elim (json.from_str raw) [ none ↦ malformed | some registry ↦ loaded registry ]
    ]
  ]

  -- `if let Some(parent) = path.parent() { create_dir_all(parent)? }`.
  pub make_parent : Text → W → Bool × W
  make_parent path w = elim (fs.parent path) [
    | none ↦ (true, w)
    | some parent ↦ fs.create_dir_all parent w
  ]

  unfoldable pub save : BorrowerRegistry → Text → W → Saved × W
  unfolding make_parent
  save registry path w =
      let (made, w') = make_parent path w in
      elim made [
        | false ↦ (no_directory, w')
        | true ↦ elim (json.to_string_pretty registry) [
          | none ↦ (not_serialised, w')
          | some raw ↦
              let (written, w'') = fs.write path raw w' in
              if written then (saved, w'') else (not_written, w'')
        ]
      ]

  -- What the code relies on: a write that succeeds is what is read afterwards, and what was written
  -- parses to the registry it was made of.
  pub record IsReliable (path : Text) : Type 0 where
    pub written :
        (raw : Text) (w : W)
        → (fs.write path raw w).0 ≡ true
        → (fs.exists path (fs.write path raw w).1 ≡ true)
          × (fs.read_to_string path (fs.write path raw w).1 ≡ some raw)
    pub parses :
        (registry : BorrowerRegistry) (raw : Text)
        → AscendsFrom 0 registry.borrowers
        → json.to_string_pretty registry ≡ some raw
        → json.from_str raw ≡ some registry
