-- ===== src/Runtime/Apis/Genesis.antt =====
-- runtime/src/apis.rs: the `GenesisBuilder`, which adds the presets of the runtime.
use nexusguild.Base.{◌≡◌, String, Option, some, none, returned, Result, ok, Outcome, List}
use nexusguild.Runtime.Genesis.{Keyring, Builder, Patch}
use nexusguild.Runtime.Genesis.Patches.{IsBuildable}

-- `frame_support::genesis_builder_helper`, at `RuntimeGenesisConfig`.
pub record GenesisHelper (Storage : Type 0) : Type 0 where
  pub build_state : String → Storage → Result String (Unit {0}) × Storage
  pub get_preset : Option String → (String → Outcome (Option String)) → Outcome (Option String)

-- How `sc_chain_spec` makes the genesis from a named preset: it merges the patch into the default
-- configuration, which the runtime gives, and builds the state in a storage without any key.
pub record GenesisMerge (Storage : Type 0) : Type 0 where
  pub default_config : String
  pub merge : String → String → String
  pub blank : Storage

-- The full configuration that a patch stands for.
abbrev pub merged : {Storage : Type 0} → GenesisMerge Storage → String → String
merged M patch = M.merge M.default_config patch

-- What is documented: a preset that is named is looked up by the given function, without a name the
-- helper gives the default configuration, and a full configuration, which the pallets accept with
-- the patch in it, is built into the storage without keys.
pub record IsHelper (K : Keyring) (B : Builder K) (Storage : Type 0) (G : GenesisHelper Storage)
    (M : GenesisMerge Storage) : Type 0 where
  pub get_preset-some :
      (id : String) (preset_for_name : String → Outcome (Option String))
      → G.get_preset (some id) preset_for_name ≡ preset_for_name id
  pub get_preset-none :
      (preset_for_name : String → Outcome (Option String))
      → G.get_preset none preset_for_name ≡ returned (some M.default_config)
  pub build_state-ok :
      (p : Patch K) (text : String)
      → B.to_string (B.json_patch p) ≡ ok text
      → IsBuildable K p
      → (G.build_state (merged M text) M.blank).0 ≡ ok tt

module _ (K : Keyring) (B : Builder K) (Storage : Type 0) (G : GenesisHelper Storage) where
  unfoldable pub build_state : String → Storage → Result String (Unit {0}) × Storage
  build_state config = G.build_state config

  unfoldable pub get_preset : Option String → Outcome (Option String)
  get_preset id = G.get_preset id (nexusguild.Runtime.Genesis.get_preset K B)

  unfoldable pub preset_names : List String
  preset_names = nexusguild.Runtime.Genesis.preset_names K B
