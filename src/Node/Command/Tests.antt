-- ===== src/Node/Command/Tests.antt =====
-- node/src/command.rs: the theorems on commands that succeed.
use nexusguild.Base.{ap, map_ok, ◌>>=◌, pure, ◌≡◌, refl, false, none, some, ok, err, [], ◌∷◌}
use nexusguild.Base.{All}
use nexusguild.Runtime.Currency.{existential_deposit}
use nexusguild.Node.Cli.{CommandTypes, Cli, export_blocks, benchmark, extrinsic}
use nexusguild.Node.Benchmarking.Example.{
  tx_api, client, birth, implicit, implicit-IsImplicit, verify, verify-sign, name_of,
}
use nexusguild.Node.Command.Given.{Given, run-Given}
use nexusguild.Node.Command.Factory.{ChainView, IsView, Served, run-Served}
use nexusguild.Node.Service.Host.{Configuration, litep2p, NetworkBackendType, Host}
use nexusguild.Node.Service.Log.{Stopped, attempt, spawn}
use nexusguild.Node.Service.Partial.{new_partial, start_telemetry, spawn_telemetry}
use nexusguild.Node.Service.Full.{new_full}
use nexusguild.Node.Service.Example.{One, types, host, validator}
use nexusguild.Node.Command.Host.{
  CliTypes, CliHost, IsRunner, World, call_run, stopped_error, Run, Invocation, run_export_blocks,
  run_extrinsic, remark_builder, transfer_keep_alive_builder, build, propagate,
}
use nexusguild.Node.Command.Dispatch.{
  run, run_subcommand, run_benchmark, inherent_benchmark_data, with_sync_runner, with_async_runner,
  partial_of,
}
use nexusguild.Node.Command.Rules.{Ran}
use nexusguild.Node.Command.Reasons.{Why}
use nexusguild.Node.Command.Runs.{run-Ran, run-new_full}

abbrev commands : CommandTypes
commands = record {
  KeySubcommand = One;
  BuildSpecCmd = One;
  CheckBlockCmd = One;
  ExportBlocksCmd = One;
  ExportStateCmd = One;
  ImportBlocksCmd = One;
  PurgeChainCmd = One;
  RevertCmd = One;
  ChainInfoCmd = One;
  PalletCmd = One;
  BlockCmd = One;
  StorageCmd = One;
  OverheadCmd = One;
  ExtrinsicCmd = One;
  MachineCmd = One;
  RunCmd = One;
}

abbrev cli_types : CliTypes
cli_types = record {
  Error = One;
  Runner = One;
  ChainSpec = One;
  NetworkConfig = One;
  Database = One;
  InherentData = One;
  Db = One;
  Storage = One;
  ProviderError = One;
  AccountId = One;
  DigestItem = One;
  Hardware = One;
}

-- The asynchronous run is the argument.
abbrev host_with :
    (One
      → (Configuration types
          → Run types commands cli_types (Invocation types commands cli_types × One))
      → Run types commands cli_types One)
    → CliHost types commands cli_types
host_with async_run = record {
  create_runner = λ _ _. ok tt;
  invoke = λ _. ok tt;
  sync_run = λ _ f. f validator;
  async_run = async_run;
  run_node_until_exit = λ _ f w. let (r, v) = f validator w in (map_ok (λ _. tt) r, v);
  chain_spec = λ _. tt;
  network = λ _. tt;
  spec_name = λ _. "local";
  alice_account = tt;
  database = λ _. tt;
  default_backend = litep2p;
  expose_db = λ _. tt;
  expose_storage = λ _. tt;
  grandpa_revert = λ _ _. ok tt;
  reference_hardware = tt;
  provide_inherent_data = λ _. ok tt;
  debug = λ _. "";
  text_error = λ _. tt;
  service_error = λ _. tt;
}

abbrev cli_host : CliHost types commands cli_types
cli_host =
    host_with λ _ f.
      f validator >>= λ (i, _). call_run types commands cli_types (host_with λ _ _. pure tt) i

runner : IsRunner types commands cli_types cli_host
unfolding call_run
runner = record {
  config = λ _. validator;
  sync = λ r f. refl;
  async = λ r f. refl;
  node = λ r f w. (refl, λ e h. ap (map_ok (λ _. tt)) h);
}

backends : NetworkBackendType → Host types
backends _ = host (ok (some tt))

abbrev exporting : Cli commands
exporting = record { subcommand = some (export_blocks tt); run_cmd = tt }

abbrev validating : Cli commands
validating = record { subcommand = none; run_cmd = tt }

abbrev start : World types commands cli_types
start = record { tasks = []; invoked = [] }

exported :
    let out = run types commands cli_types cli_host backends false exporting start in
    (out.0 ≡ ok tt) × (out.1.invoked ≡ run_export_blocks tt tt tt ∷ [])
unfolding run run_subcommand with_async_runner partial_of build propagate call_run new_partial
    start_telemetry spawn_telemetry ◌>>=◌ attempt spawn pure backends
exported = (refl, refl)

run-Ran_example :
    let out = run types commands cli_types cli_host backends false exporting start in
    Ran types commands cli_types cli_host
      (Why types commands cli_types cli_host backends false runner exporting (export_blocks tt))
      (export_blocks tt)
      start
      out.0
      out.1
run-Ran_example =
    run-Ran types commands cli_types cli_host backends false runner exporting (export_blocks tt)
      refl start

run-new_full_example :
    let built = new_full types (backends litep2p) validator [] in
    let out = run types commands cli_types cli_host backends false validating start in
    (out.1.tasks ≡ built.1)
    × (out.1.invoked ≡ [])
    × ((e : Stopped One)
        → built.0 ≡ err e
        → out.0 ≡ err (stopped_error types commands cli_types cli_host.service_error e))
unfolding runner
run-new_full_example =
    run-new_full types commands cli_types cli_host backends false runner validating refl tt refl
      start

abbrev benchmarking : Cli commands
benchmarking = record { subcommand = some (benchmark (extrinsic tt)); run_cmd = tt }

-- The one client has the blocks of the example of the benchmarks, and the one account has number 1.
abbrev view : ChainView types cli_types tx_api
view = record {
  client_of = λ _. client;
  account_of = λ _. 1;
  name_of = name_of;
  implicit = implicit;
  verify = verify;
  genesis = 100;
  birth = birth;
}

view-IsView : IsView types cli_types tx_api view
view-IsView = record {
  remark_name = refl;
  transfer_name = λ dest value. refl;
  adds = implicit-IsImplicit;
  verifies = verify-sign;
  has_genesis = λ _. refl;
  begins = λ _. refl;
}

-- The benchmark is run with two builders.
benchmarked :
    (run types commands cli_types cli_host backends false benchmarking start).1.invoked
    ≡ run_extrinsic tt tt tt []
        (remark_builder tt ∷ transfer_keep_alive_builder tt tt existential_deposit ∷ [])
      ∷ []
unfolding run run_subcommand run_benchmark with_sync_runner partial_of build propagate call_run
    new_partial start_telemetry spawn_telemetry ◌>>=◌ attempt spawn pure backends
    inherent_benchmark_data
benchmarked = refl

run-Served_example :
    All
      (Served types commands cli_types tx_api view)
      (run types commands cli_types cli_host backends false benchmarking start).1.invoked
run-Served_example =
    run-Served types commands cli_types tx_api view view-IsView cli_host backends false runner
      benchmarking start tt

run-Given_example :
    All
      (Given types commands cli_types cli_host backends false runner benchmarking)
      (run types commands cli_types cli_host backends false benchmarking start).1.invoked
run-Given_example =
    run-Given types commands cli_types cli_host backends false runner benchmarking start tt
