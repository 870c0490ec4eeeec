-- ===== src/Node/Command/Dispatch.antt =====
-- node/src/command.rs: `run`, with the arguments already parsed.
use Prim.Native.String.{◌++◌ as ◌<>◌}
use mathlib.Core.Option.{get_or}
use nexusguild.Base.{
  String, Bool, if◌then◌else◌, false, and_then, ok, none, some, Result, err, map_err, ◌>>=◌, pure,
  List, [], ◌∷◌,
}
use nexusguild.Runtime.Currency.{existential_deposit}
use nexusguild.Node.Cli.{
  CommandTypes, Subcommand, BenchmarkCmd, Cli, key, build_spec, check_block, export_blocks,
  export_state, import_blocks, purge_chain, revert, benchmark, chain_info, pallet, block, storage,
  overhead, extrinsic, machine,
}
use nexusguild.Node.Service.Host.{Types, Host, Configuration, NetworkBackendType, libp2p, litep2p}
use nexusguild.Node.Service.Partial.{PartialComponents, new_partial}
use nexusguild.Node.Service.Full.{new_full}
use nexusguild.Node.Command.Host.{
  CliTypes, CliHost, Run, propagate, build, call_run, run_key, run_build_spec, run_check_block,
  run_export_blocks, run_export_state, run_import_blocks, run_purge_chain, run_revert,
  run_chain_info, run_pallet, run_block, run_storage, run_overhead, run_extrinsic, run_machine,
  Invocation, AuxRevert, ExtrinsicBuilder, remark_builder, transfer_keep_alive_builder,
}

-- The crates of Substrate are given once for each network backend; `new_partial` is the same for
-- all of them. The flag is `cfg!(feature = "runtime-benchmarks")`.
module _ (Y : Types) (X : CommandTypes) (Z : CliTypes) (H : CliHost Y X Z)
    (backend : NetworkBackendType → Host Y) (runtime_benchmarks : Bool) where
  unfoldable pub partial_of : Configuration Y → Run Y X Z (PartialComponents Y)
  partial_of config = build Y X Z H.service_error (new_partial Y (backend H.default_backend) config)

  -- `inherent_benchmark_data` (node/src/benchmarking.rs): the timestamp is 0 milliseconds.
  unfoldable pub inherent_benchmark_data : Result Z.Error Z.InherentData
  inherent_benchmark_data =
      map_err (λ e. H.text_error ("creating inherent data: " <> H.debug e))
        (H.provide_inherent_data 0)

  abbrev refuse : String → Run Y X Z (Unit {0})
  refuse message = propagate Y X Z (err (H.text_error message))

  run_enabled_storage : Configuration Y → X.StorageCmd → Run Y X Z (Unit {0})
  run_enabled_storage config cmd = do
    parts ← partial_of config
    call_run Y X Z H (
        run_storage cmd config parts.client (H.expose_db parts.backend)
          (H.expose_storage parts.backend))

  abbrev extrinsic_factory : Y.Client → List (ExtrinsicBuilder Y X Z)
  extrinsic_factory client =
      remark_builder client
      ∷ transfer_keep_alive_builder client H.alice_account existential_deposit
      ∷ []

  -- The closure of the subcommand `benchmark`.
  unfoldable pub run_benchmark : BenchmarkCmd X → Configuration Y → Run Y X Z (Unit {0})
  unfolding run_enabled_storage
  run_benchmark (pallet cmd) config =
      if runtime_benchmarks
      then call_run Y X Z H (run_pallet cmd (some (H.chain_spec config)))
      else refuse
          "Runtime benchmarking wasn't enabled when building the node. You can enable it with `--features runtime-benchmarks`."
  run_benchmark (block cmd) config = do
    parts ← partial_of config
    call_run Y X Z H (run_block cmd parts.client)
  run_benchmark (storage cmd) config =
      if runtime_benchmarks
      then run_enabled_storage config cmd
      else refuse "Storage benchmarking can be enabled with `--features runtime-benchmarks`."
  run_benchmark (overhead cmd) config = do
    parts ← partial_of config
    inherent ← propagate Y X Z inherent_benchmark_data
    call_run Y X Z H (
        run_overhead cmd (H.spec_name (H.chain_spec config)) parts.client inherent []
          (remark_builder parts.client) false)
  run_benchmark (extrinsic cmd) config = do
    parts ← partial_of config
    inherent ← propagate Y X Z inherent_benchmark_data
    call_run Y X Z H (run_extrinsic cmd parts.client inherent [] (extrinsic_factory parts.client))
  run_benchmark (machine cmd) config =
      call_run Y X Z H (run_machine cmd config H.reference_hardware)

  -- The closure of the subcommand `revert`: the votes of GRANDPA are reverted with the blocks.
  abbrev aux_revert : AuxRevert Y X Z
  aux_revert client _ blocks = and_then (H.grandpa_revert client blocks) λ _. ok tt

  -- `cli.create_runner(cmd)?` and `runner.sync_run(…)`
  unfoldable pub with_sync_runner :
      Cli X → Subcommand X → (Configuration Y → Run Y X Z (Unit {0})) → Run Y X Z (Unit {0})
  with_sync_runner cli s f = do
    runner ← propagate Y X Z (H.create_runner (some s) cli)
    H.sync_run runner f

  -- `cli.create_runner(cmd)?` and `runner.async_run(…)`, for a closure that builds the partial
  -- components and gives a run of the command with them.
  unfoldable pub with_async_runner :
      Cli X
      → Subcommand X
      → (Configuration Y → PartialComponents Y → Invocation Y X Z)
      → Run Y X Z (Unit {0})
  with_async_runner cli s f = do
    runner ← propagate Y X Z (H.create_runner (some s) cli)
    H.async_run runner
        (λ config. do parts ← partial_of config; pure (f config parts, parts.task_manager))

  unfoldable pub run_subcommand : Cli X → Subcommand X → Run Y X Z (Unit {0})
  run_subcommand cli (key cmd) = call_run Y X Z H (run_key cmd cli)
  run_subcommand cli (build_spec cmd) =
      with_sync_runner cli (build_spec cmd)
        λ config. call_run Y X Z H (run_build_spec cmd (H.chain_spec config) (H.network config))
  run_subcommand cli (check_block cmd) =
      with_async_runner cli (check_block cmd)
        λ config parts. run_check_block cmd parts.client parts.import_queue
  run_subcommand cli (export_blocks cmd) =
      with_async_runner cli (export_blocks cmd)
        λ config parts. run_export_blocks cmd parts.client (H.database config)
  run_subcommand cli (export_state cmd) =
      with_async_runner cli (export_state cmd)
        λ config parts. run_export_state cmd parts.client (H.chain_spec config)
  run_subcommand cli (import_blocks cmd) =
      with_async_runner cli (import_blocks cmd)
        λ config parts. run_import_blocks cmd parts.client parts.import_queue
  run_subcommand cli (purge_chain cmd) =
      with_sync_runner cli (purge_chain cmd)
        λ config. call_run Y X Z H (run_purge_chain cmd (H.database config))
  run_subcommand cli (revert cmd) =
      with_async_runner cli (revert cmd)
        λ config parts. run_revert cmd parts.client parts.backend (some aux_revert)
  run_subcommand cli (benchmark cmd) = with_sync_runner cli (benchmark cmd) (run_benchmark cmd)
  run_subcommand cli (chain_info cmd) =
      with_sync_runner cli (chain_info cmd) λ config. call_run Y X Z H (run_chain_info cmd config)

  -- `new_full` for one network backend or the other.
  unfoldable pub new_full_over : NetworkBackendType → Configuration Y → Run Y X Z Y.TaskManager
  new_full_over libp2p config = build Y X Z H.service_error (new_full Y (backend libp2p) config)
  new_full_over litep2p config = build Y X Z H.service_error (new_full Y (backend litep2p) config)

  -- The node itself, with the network backend of the configuration or the default one.
  unfoldable pub run_node : Cli X → Run Y X Z (Unit {0})
  run_node cli = do
    runner ← propagate Y X Z (H.create_runner none cli)
    H.run_node_until_exit runner
        λ config. new_full_over (get_or config.network_backend H.default_backend) config

  unfoldable pub run : Cli X → Run Y X Z (Unit {0})
  run cli = elim cli.subcommand [ some s ↦ run_subcommand cli s | none ↦ run_node cli ]
