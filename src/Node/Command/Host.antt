-- ===== src/Node/Command/Host.antt =====
-- node/src/command.rs: what `run` takes from `sc_cli` and the benchmarks, and the world in which it
-- runs.
use nexusguild.Base.{
  ℕ, String, Bool, Option, Result, ok, err, map_err, Stateful, ◌>>=◌, List, [], ◌∷◌, ◌++◌, ◌≡◌,
}
use nexusguild.Node.Cli.{
  CommandTypes, Subcommand, Cli, key, build_spec, check_block, export_blocks, export_state,
  import_blocks, purge_chain, revert, benchmark, chain_info, pallet, block, storage, overhead,
  extrinsic, machine,
}
use nexusguild.Node.Service.Host.{Types, Configuration, NetworkBackendType}
use nexusguild.Node.Service.Log.{Entry, Building, Stopped, failed, panic}

-- Types of the configuration's parts and of what the benchmarks are given.
pub record CliTypes : Type 1 where
  pub Error : Type 0
  pub Runner : Type 0
  pub ChainSpec : Type 0
  pub NetworkConfig : Type 0
  pub Database : Type 0
  pub InherentData : Type 0
  pub ProviderError : Type 0
  pub AccountId : Type 0
  pub Db : Type 0
  pub Storage : Type 0
  pub DigestItem : Type 0
  pub Hardware : Type 0

module _ (Y : Types) (X : CommandTypes) (Z : CliTypes) where
  -- `RemarkBuilder::new` and `TransferKeepAliveBuilder::new` with their arguments: the client, the
  -- account that receives the transfers, and the amount.
  pub data ExtrinsicBuilder : Type 0 where
    remark_builder : Y.Client → ExtrinsicBuilder
    transfer_keep_alive_builder : Y.Client → Z.AccountId → ℕ → ExtrinsicBuilder

  -- The function that a revert is given for what is kept beside the blocks.
  abbrev pub AuxRevert : Type 0
  AuxRevert = Y.Client → Y.Backend → ℕ → Result Z.Error (Unit {0})

  -- A call of the `run` method of a command, with the arguments that it is given.
  pub data Invocation : Type 0 where
    run_key : X.KeySubcommand → Cli X → Invocation
    run_build_spec : X.BuildSpecCmd → Z.ChainSpec → Z.NetworkConfig → Invocation
    run_check_block : X.CheckBlockCmd → Y.Client → Y.ImportQueue → Invocation
    run_export_blocks : X.ExportBlocksCmd → Y.Client → Z.Database → Invocation
    run_export_state : X.ExportStateCmd → Y.Client → Z.ChainSpec → Invocation
    run_import_blocks : X.ImportBlocksCmd → Y.Client → Y.ImportQueue → Invocation
    run_purge_chain : X.PurgeChainCmd → Z.Database → Invocation
    run_revert : X.RevertCmd → Y.Client → Y.Backend → Option AuxRevert → Invocation
    run_chain_info : X.ChainInfoCmd → Configuration Y → Invocation
    run_pallet : X.PalletCmd → Option Z.ChainSpec → Invocation
    run_block : X.BlockCmd → Y.Client → Invocation
    run_storage : X.StorageCmd → Configuration Y → Y.Client → Z.Db → Z.Storage → Invocation
    run_overhead :
        X.OverheadCmd
        → String
        → Y.Client
        → Z.InherentData
        → List Z.DigestItem
        → ExtrinsicBuilder
        → Bool
        → Invocation
    run_extrinsic :
        X.ExtrinsicCmd
        → Y.Client
        → Z.InherentData
        → List Z.DigestItem
        → List ExtrinsicBuilder
        → Invocation
    run_machine : X.MachineCmd → Configuration Y → Z.Hardware → Invocation

  -- The subcommand whose `run` method is called.
  abbrev pub command_of : Invocation → Subcommand X
  command_of (run_key c _) = key c
  command_of (run_build_spec c _ _) = build_spec c
  command_of (run_check_block c _ _) = check_block c
  command_of (run_export_blocks c _ _) = export_blocks c
  command_of (run_export_state c _ _) = export_state c
  command_of (run_import_blocks c _ _) = import_blocks c
  command_of (run_purge_chain c _) = purge_chain c
  command_of (run_revert c _ _ _) = revert c
  command_of (run_chain_info c _) = chain_info c
  command_of (run_pallet c _) = benchmark (pallet c)
  command_of (run_block c _) = benchmark (block c)
  command_of (run_storage c _ _ _ _) = benchmark (storage c)
  command_of (run_overhead c _ _ _ _ _ _) = benchmark (overhead c)
  command_of (run_extrinsic c _ _ _ _) = benchmark (extrinsic c)
  command_of (run_machine c _ _) = benchmark (machine c)

  -- The tasks of the service, and the commands that were run.
  pub record World : Type 0 where
    pub tasks : List (Entry Y)
    pub invoked : List Invocation

  abbrev pub Run : Type 0 → Type 0
  Run A = Stateful World (Stopped Z.Error) A

  pub record CliHost : Type 0 where
    pub create_runner : Option (Subcommand X) → Cli X → Result Z.Error Z.Runner
    pub invoke : Invocation → Result Z.Error (Unit {0})
    pub sync_run : Z.Runner → (Configuration Y → Run (Unit {0})) → Run (Unit {0})
    pub async_run : Z.Runner → (Configuration Y → Run (Invocation × Y.TaskManager)) → Run (Unit {0})
    pub run_node_until_exit : Z.Runner → (Configuration Y → Run Y.TaskManager) → Run (Unit {0})
    pub chain_spec : Configuration Y → Z.ChainSpec
    pub spec_name : Z.ChainSpec → String
    pub alice_account : Z.AccountId
    pub network : Configuration Y → Z.NetworkConfig
    pub database : Configuration Y → Z.Database
    pub default_backend : NetworkBackendType
    pub expose_db : Y.Backend → Z.Db
    pub expose_storage : Y.Backend → Z.Storage
    pub grandpa_revert : Y.Client → ℕ → Result Z.Error (Unit {0})
    pub reference_hardware : Z.Hardware
    pub provide_inherent_data : ℕ → Result Z.ProviderError Z.InherentData
    pub debug : Z.ProviderError → String
    pub text_error : String → Z.Error
    pub service_error : Y.Error → Z.Error

  unfoldable pub propagate : {A : Type 0} → Result Z.Error A → Run A
  propagate (ok a) w = (ok a, w)
  propagate (err e) w = (err (failed e), w)

  abbrev pub stopped_error : (Y.Error → Z.Error) → Stopped Y.Error → Stopped Z.Error
  stopped_error f (failed e) = failed (f e)
  stopped_error f (panic message) = panic message

  -- A part of the service is built; its error becomes one of the command line.
  unfoldable pub build : (Y.Error → Z.Error) → {A : Type 0} → Building Y A → Run A
  build f m w =
      let (r, tasks) = m w.tasks in (map_err (stopped_error f) r, record w { tasks = tasks })

  -- `cmd.run(…)`
  unfoldable pub call_run : CliHost → Invocation → Run (Unit {0})
  call_run H i w = let v = record w { invoked = w.invoked ++ i ∷ [] } in propagate (H.invoke i) v

  -- What `sc_cli` documents of a runner: it calls the function with its configuration; an
  -- asynchronous run then runs the command that the function gives; and the node keeps running
  -- after it was built, which does no more of what is recorded here.
  pub record IsRunner (H : CliHost) : Type 0 where
    pub config : Z.Runner → Configuration Y
    pub sync : (r : Z.Runner) (f : Configuration Y → Run (Unit {0})) → H.sync_run r f ≡ f (config r)
    pub async :
        (r : Z.Runner) (f : Configuration Y → Run (Invocation × Y.TaskManager))
        → H.async_run r f ≡ (f (config r) >>= λ (i, manager). call_run H i)
    pub node :
        (r : Z.Runner) (f : Configuration Y → Run Y.TaskManager) (w : World)
        → ((H.run_node_until_exit r f w).1 ≡ (f (config r) w).1)
          × ((e : Stopped Z.Error)
              → (f (config r) w).0 ≡ err e
              → (H.run_node_until_exit r f w).0 ≡ err e)
