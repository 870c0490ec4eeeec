-- ===== src/Node/Command/Reasons.antt =====
-- node/src/command.rs: the reasons for which a run with a subcommand runs no command.
use nexusguild.Base.{Bool, true, false, some, ok, err, ◌≡◌, List}
use Prim.Native.String.{◌++◌ as ◌<>◌}
use nexusguild.Node.Cli.{
  CommandTypes, Subcommand, BenchmarkCmd, Cli, key, build_spec, purge_chain, benchmark, chain_info,
  pallet, storage, overhead, extrinsic, machine,
}
use nexusguild.Node.Service.Host.{Types, Host, NetworkBackendType}
use nexusguild.Node.Service.Log.{Entry, Stopped, failed}
use nexusguild.Node.Service.Partial.{new_partial}
use nexusguild.Node.Command.Host.{CliTypes, CliHost, IsRunner, stopped_error}

module _ (X : CommandTypes) where
  abbrev pub needs_inherent_data : BenchmarkCmd X → Bool
  needs_inherent_data (overhead _) = true
  needs_inherent_data (extrinsic _) = true
  needs_inherent_data _ = false

  abbrev pub needs_runner : Subcommand X → Bool
  needs_runner (key _) = false
  needs_runner _ = true

  abbrev pub needs_service : Subcommand X → Bool
  needs_service (key _) = false
  needs_service (build_spec _) = false
  needs_service (purge_chain _) = false
  needs_service (chain_info _) = false
  needs_service (benchmark (pallet _)) = false
  needs_service (benchmark (machine _)) = false
  needs_service _ = true

module _ (Y : Types) (X : CommandTypes) (Z : CliTypes) (H : CliHost Y X Z)
    (backend : NetworkBackendType → Host Y) (runtime_benchmarks : Bool) (runner : IsRunner Y X Z H)
    (cli : Cli X) where
  -- Why no command was run: the runner was not created; the partial components of its configuration
  -- were not built; the timestamp gave no inherent data; or the binary is without the feature that
  -- the benchmark needs. Each only for a subcommand that takes that step.
  pub data Why (s : Subcommand X) : Stopped Z.Error → Type 0 where
    no_runner :
        (e : Z.Error)
        → needs_runner X s ≡ true
        → H.create_runner (some s) cli ≡ err e
        → Why s (failed e)
    no_service :
        (r : Z.Runner) (tasks : List (Entry Y)) (e : Stopped Y.Error)
        → needs_service X s ≡ true
        → H.create_runner (some s) cli ≡ ok r
        → (new_partial Y (backend H.default_backend) (runner.config r) tasks).0 ≡ err e
        → Why s (stopped_error Y X Z H.service_error e)
    no_inherent :
        (cmd : BenchmarkCmd X) (e : Z.ProviderError)
        → s ≡ benchmark cmd
        → needs_inherent_data X cmd ≡ true
        → H.provide_inherent_data 0 ≡ err e
        → Why s (failed (H.text_error ("creating inherent data: " <> H.debug e)))
    no_pallet :
        (cmd : X.PalletCmd)
        → s ≡ benchmark (pallet cmd)
        → runtime_benchmarks ≡ false
        → Why s (
            failed (
              H.text_error
                "Runtime benchmarking wasn't enabled when building the node. You can enable it with `--features runtime-benchmarks`."))
    no_storage :
        (cmd : X.StorageCmd)
        → s ≡ benchmark (storage cmd)
        → runtime_benchmarks ≡ false
        → Why s (
            failed (
              H.text_error
                "Storage benchmarking can be enabled with `--features runtime-benchmarks`."))
