-- ===== src/Node/ChainSpec.antt =====
-- node/src/chain_spec.rs, and `load_spec` of node/src/command.rs.
use nexusguild.Base.{
  ◌≡◌, String, str_eq, if◌then◌else◌, Option, some, Result, ok, ok_or, and_then, ◌||◌,
}
pub mod Laws
pub mod Loading
pub mod Built
pub mod Running
pub mod Example
pub mod World
mod Tests

-- What `sc_service` and `sp_genesis_builder` provide: the builder of `GenericChainSpec`, the
-- loader of a file, and the names of the presets. The last fields read a finished specification.
pub record SpecApi : Type 1 where
  pub Wasm : Type 0
  pub ChainType : Type 0
  pub Builder : Type 0
  pub ChainSpec : Type 0
  pub development : ChainType
  pub local : ChainType
  pub dev_runtime_preset : String
  pub local_testnet_runtime_preset : String
  pub builder : Wasm → Builder
  pub with_name : String → Builder → Builder
  pub with_id : String → Builder → Builder
  pub with_chain_type : ChainType → Builder → Builder
  pub with_genesis_config_preset_name : String → Builder → Builder
  pub build : Builder → ChainSpec
  pub from_json_file : String → Result String ChainSpec
  pub name : ChainSpec → String
  pub id : ChainSpec → String
  pub chain_type : ChainSpec → ChainType
  pub code : ChainSpec → Wasm
  pub preset_name : ChainSpec → Option String

-- What a specification is made of.
pub record Describes (S : SpecApi) (w : S.Wasm) (n i : String) (t : S.ChainType) (p : String)
    (spec : S.ChainSpec) : Type 0 where
  pub named : S.name spec ≡ n
  pub identified : S.id spec ≡ i
  pub typed : S.chain_type spec ≡ t
  pub coded : S.code spec ≡ w
  pub preset : S.preset_name spec ≡ some p

-- A specification carries what it was built with.
pub record IsLawful (S : SpecApi) : Type 0 where
  pub built :
      (w : S.Wasm) (n i : String) (t : S.ChainType) (p : String)
      → Describes S w n i t p (
          S.build (
            S.with_genesis_config_preset_name p
              (S.with_chain_type t (S.with_id i (S.with_name n (S.builder w))))))

module _ (S : SpecApi) (wasm_binary : Option S.Wasm) where
  open S use {
    ChainSpec, builder, with_name, with_id, with_chain_type, with_genesis_config_preset_name, build,
  }

  unfoldable pub development_chain_spec : Result String ChainSpec
  development_chain_spec = and_then (ok_or wasm_binary "Development wasm not available") (λ wasm.
      ok (
        build (
          with_genesis_config_preset_name S.dev_runtime_preset (
            with_chain_type S.development
              (with_id "dev" (with_name "Development" (builder wasm)))))))

  unfoldable pub local_chain_spec : Result String ChainSpec
  local_chain_spec = and_then (ok_or wasm_binary "Development wasm not available") (λ wasm. ok (
      build (
        with_genesis_config_preset_name S.local_testnet_runtime_preset (
          with_chain_type S.local
            (with_id "local_testnet" (with_name "Local Testnet" (builder wasm)))))))

  -- `load_spec`; a path is the text of the argument.
  unfoldable pub load_spec : String → Result String ChainSpec
  unfolding development_chain_spec local_chain_spec
  load_spec id =
      if str_eq id "dev"
      then development_chain_spec
      else if str_eq id "" || str_eq id "local"
      then local_chain_spec
      else S.from_json_file id
