-- ===== src/Runtime/Apis/Tools.antt =====
-- runtime/src/apis.rs and runtime/src/benchmarks.rs: the benchmarks of the runtime, and its trial
-- runs.
use nexusguild.Base.{map_outcome, String, Bool, Result, Outcome, ◌∷◌, [], List, expect_result}
use nexusguild.Runtime.Blocks.{BlockApi, runtime_block_weights}
use nexusguild.Template.Weights.{WeightApi}

-- The names in `define_benchmarks!`, and the types whose benchmarks they are.
abbrev pub benchmarks : List (String × String)
benchmarks =
    ("frame_benchmarking", "BaselineBench::<Runtime>")
    ∷ ("frame_system", "SystemBench::<Runtime>")
    ∷ ("frame_system_extensions", "SystemExtensionsBench::<Runtime>")
    ∷ ("pallet_balances", "Balances")
    ∷ ("pallet_timestamp", "Timestamp")
    ∷ ("pallet_sudo", "Sudo")
    ∷ ("pallet_template", "Template")
    ∷ []

-- What `frame_benchmarking` and its macros do with the entries: they list their benchmarks, or run
-- those that the configuration selects.
pub record BenchmarkApi : Type 1 where
  pub Storage : Type 0
  pub BenchmarkList : Type 0
  pub StorageInfo : Type 0
  pub BenchmarkConfig : Type 0
  pub BenchmarkBatch : Type 0
  pub TrackedStorageKey : Type 0
  pub list_benchmarks : List (String × String) → Bool → List BenchmarkList
  pub storage_info : List StorageInfo
  pub whitelisted_storage_keys : List TrackedStorageKey
  pub add_benchmarks :
      List (String × String)
      → BenchmarkConfig
      → List TrackedStorageKey
      → Storage
      → Result String (List BenchmarkBatch) × Storage

module _ (A : BenchmarkApi) where
  unfoldable pub benchmark_metadata : Bool → List A.BenchmarkList × List A.StorageInfo
  benchmark_metadata extra = (A.list_benchmarks benchmarks extra, A.storage_info)

  unfoldable pub dispatch_benchmark :
      A.BenchmarkConfig → A.Storage → Result String (List A.BenchmarkBatch) × A.Storage
  dispatch_benchmark config = A.add_benchmarks benchmarks config A.whitelisted_storage_keys

-- `Executive` in a trial run.
pub record TrialApi (Weight : Type 0) : Type 1 where
  pub Storage : Type 0
  pub Block : Type 0
  pub UpgradeCheckSelect : Type 0
  pub TryStateSelect : Type 0
  pub TryRuntimeError : Type 0
  pub try_runtime_upgrade : UpgradeCheckSelect → Storage → Result TryRuntimeError Weight × Storage
  pub try_execute_block :
      Block → Bool → Bool → TryStateSelect → Storage → Result TryRuntimeError Weight × Storage

module _ (W : WeightApi) (A : BlockApi W) (T : TrialApi W.Weight) where
  -- With the most that a block may weigh. The error is left out of the messages of the panics.
  unfoldable pub on_runtime_upgrade :
      T.UpgradeCheckSelect → T.Storage → Outcome ((W.Weight × W.Weight) × T.Storage)
  on_runtime_upgrade checks s =
      let (r, t) = T.try_runtime_upgrade checks s in
      map_outcome (λ weight. ((weight, A.max_block (runtime_block_weights W A)), t))
        (expect_result r "called `Result::unwrap()` on an `Err` value")

  unfoldable pub execute_block :
      T.Block → Bool → Bool → T.TryStateSelect → T.Storage → Outcome (W.Weight × T.Storage)
  execute_block block state_root_check signature_check select s =
      let (r, t) = T.try_execute_block block state_root_check signature_check select s in
      map_outcome (λ weight. (weight, t)) (expect_result r "execute-block failed")
