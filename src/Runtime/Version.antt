-- ===== src/Runtime/Version.antt =====
-- runtime/src/lib.rs: `VERSION`.
use nexusguild.Base.{ℕ, String}

-- `RuntimeVersion` of `sp_version`, over the table of the interfaces and their versions.
pub record RuntimeVersion (Apis : Type 0) : Type 0 where
  pub spec_name : String
  pub impl_name : String
  pub authoring_version : ℕ
  pub spec_version : ℕ
  pub impl_version : ℕ
  pub apis : Apis
  pub transaction_version : ℕ
  pub system_version : ℕ

-- The table, `RUNTIME_API_VERSIONS`, is made by the macro of the interfaces.
abbrev pub runtime_version : {Apis : Type 0} → Apis → RuntimeVersion Apis
runtime_version runtime_api_versions = record {
  spec_name = "solochain-template-runtime";
  impl_name = "solochain-template-runtime";
  authoring_version = 1;
  spec_version = 100;
  impl_version = 1;
  apis = runtime_api_versions;
  transaction_version = 1;
  system_version = 1;
}

-- `NativeVersion` of `sp_version`, over the versions that it can author with.
pub record NativeVersion (Apis CanAuthorWith : Type 0) : Type 0 where
  pub native_runtime_version : RuntimeVersion Apis
  pub can_author_with : CanAuthorWith

-- `native_version`, where `Default::default()` is the argument.
unfoldable pub native_version :
    {Apis CanAuthorWith : Type 0} → Apis → CanAuthorWith → NativeVersion Apis CanAuthorWith
native_version runtime_api_versions default = record {
  native_runtime_version = runtime_version runtime_api_versions;
  can_author_with = default;
}
