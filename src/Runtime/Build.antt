-- ===== src/Runtime/Build.antt =====
-- runtime/build.rs: the build script, of which the features of the crate choose one.
use nexusguild.Base.{ℕ, String, Bool, if◌then◌else◌}

-- The builder of `substrate_wasm_builder`; the world is what a build changes.
pub record WasmBuilderApi : Type 1 where
  pub World : Type 0
  pub Builder : Type 0
  pub init_with_defaults : Builder
  pub enable_metadata_hash : String → ℕ → Builder → Builder
  pub build : Builder → World → World
  pub build_using_defaults : World → World

module _ (A : WasmBuilderApi) where
  -- `main`, under the features `std` and `metadata-hash`. The token is `UNIT`, with 12 decimals.
  unfoldable pub build_script : Bool → Bool → A.World → A.World
  build_script std metadata_hash world =
      if std
      then if metadata_hash
        then A.build (A.enable_metadata_hash "UNIT" 12 A.init_with_defaults) world
        else A.build_using_defaults world
      else world
