-- ===== src/Runtime/Apis/Execution.antt =====
-- runtime/src/apis.rs: `Core`, `Metadata`, the view functions, `BlockBuilder`,
-- `TaggedTransactionQueue` and `OffchainWorkerApi`.
use nexusguild.Base.{ℕ, Option, Result, Outcome, List}
use nexusguild.Runtime.Version.{RuntimeVersion, runtime_version}

pub record ExecutionTypes : Type 1 where
  pub Storage : Type 0
  pub ApiVersions : Type 0
  pub Block : Type 0
  pub Header : Type 0
  pub Hash : Type 0
  pub Extrinsic : Type 0
  pub ExtrinsicInclusionMode : Type 0
  pub ApplyExtrinsicResult : Type 0
  pub InherentData : Type 0
  pub CheckInherentsResult : Type 0
  pub TransactionSource : Type 0
  pub TransactionValidity : Type 0
  pub Metadata : Type 0
  pub OpaqueMetadata : Type 0
  pub ViewFunctionId : Type 0
  pub ViewFunctionDispatchError : Type 0

module _ (T : ExecutionTypes) where
  open T use {Storage, Block, Header, Extrinsic, InherentData}

  -- `Executive`, and what the macro of the runtime generates on `Runtime` and on the inherent data.
  -- The execution of a block panics where the block is not valid.
  pub record Executive : Type 0 where
    pub runtime_api_versions : T.ApiVersions
    pub executive_execute_block : Block → Storage → Outcome Storage
    pub executive_initialize_block : Header → Storage → T.ExtrinsicInclusionMode × Storage
    pub executive_apply_extrinsic : Extrinsic → Storage → T.ApplyExtrinsicResult × Storage
    pub executive_finalize_block : Storage → Header × Storage
    pub executive_validate_transaction :
        T.TransactionSource → Extrinsic → T.Hash → Storage → T.TransactionValidity × Storage
    pub executive_offchain_worker : Header → Storage → Storage
    pub create_extrinsics : InherentData → Storage → List Extrinsic
    pub check_extrinsics : InherentData → Block → Storage → T.CheckInherentsResult
    pub runtime_metadata : T.Metadata
    pub opaque_metadata : T.Metadata → T.OpaqueMetadata
    pub runtime_metadata_at_version : ℕ → Option T.OpaqueMetadata
    pub runtime_metadata_versions : List ℕ
    pub runtime_execute_view_function :
        T.ViewFunctionId → List ℕ → Storage → Result T.ViewFunctionDispatchError (List ℕ)

module _ (T : ExecutionTypes) (E : Executive T) where
  open T use {Storage, Block, Header, Extrinsic, InherentData}

  unfoldable pub version : RuntimeVersion T.ApiVersions
  version = runtime_version E.runtime_api_versions

  unfoldable pub execute_block : Block → Storage → Outcome Storage
  execute_block block = E.executive_execute_block block

  unfoldable pub initialize_block : Header → Storage → T.ExtrinsicInclusionMode × Storage
  initialize_block header = E.executive_initialize_block header

  unfoldable pub metadata : T.OpaqueMetadata
  metadata = E.opaque_metadata E.runtime_metadata

  unfoldable pub metadata_at_version : ℕ → Option T.OpaqueMetadata
  metadata_at_version version = E.runtime_metadata_at_version version

  unfoldable pub metadata_versions : List ℕ
  metadata_versions = E.runtime_metadata_versions

  unfoldable pub execute_view_function :
      T.ViewFunctionId → List ℕ → Storage → Result T.ViewFunctionDispatchError (List ℕ)
  execute_view_function id input = E.runtime_execute_view_function id input

  unfoldable pub apply_extrinsic : Extrinsic → Storage → T.ApplyExtrinsicResult × Storage
  apply_extrinsic extrinsic = E.executive_apply_extrinsic extrinsic

  unfoldable pub finalize_block : Storage → Header × Storage
  finalize_block = E.executive_finalize_block

  unfoldable pub inherent_extrinsics : InherentData → Storage → List Extrinsic
  inherent_extrinsics inherents = E.create_extrinsics inherents

  unfoldable pub check_inherents : Block → InherentData → Storage → T.CheckInherentsResult
  check_inherents block inherents = E.check_extrinsics inherents block

  unfoldable pub validate_transaction :
      T.TransactionSource → Extrinsic → T.Hash → Storage → T.TransactionValidity × Storage
  validate_transaction source tx block_hash = E.executive_validate_transaction source tx block_hash

  unfoldable pub offchain_worker : Header → Storage → Storage
  offchain_worker header = E.executive_offchain_worker header
