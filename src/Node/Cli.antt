-- ===== src/Node/Cli.antt =====
-- node/src/cli.rs: the command line after parsing.
use nexusguild.Base.{Option}

-- The argument types of the subcommands, from `sc_cli` and `frame_benchmarking_cli`.
pub record CommandTypes : Type 1 where
  pub KeySubcommand : Type 0
  pub BuildSpecCmd : Type 0
  pub CheckBlockCmd : Type 0
  pub ExportBlocksCmd : Type 0
  pub ExportStateCmd : Type 0
  pub ImportBlocksCmd : Type 0
  pub PurgeChainCmd : Type 0
  pub RevertCmd : Type 0
  pub ChainInfoCmd : Type 0
  pub PalletCmd : Type 0
  pub BlockCmd : Type 0
  pub StorageCmd : Type 0
  pub OverheadCmd : Type 0
  pub ExtrinsicCmd : Type 0
  pub MachineCmd : Type 0
  pub RunCmd : Type 0

module _ (X : CommandTypes) where
  -- The benchmarks that `run` tells apart.
  pub data BenchmarkCmd : Type 0 where
    pallet : X.PalletCmd → BenchmarkCmd
    block : X.BlockCmd → BenchmarkCmd
    storage : X.StorageCmd → BenchmarkCmd
    overhead : X.OverheadCmd → BenchmarkCmd
    extrinsic : X.ExtrinsicCmd → BenchmarkCmd
    machine : X.MachineCmd → BenchmarkCmd

  pub data Subcommand : Type 0 where
    key : X.KeySubcommand → Subcommand
    build_spec : X.BuildSpecCmd → Subcommand
    check_block : X.CheckBlockCmd → Subcommand
    export_blocks : X.ExportBlocksCmd → Subcommand
    export_state : X.ExportStateCmd → Subcommand
    import_blocks : X.ImportBlocksCmd → Subcommand
    purge_chain : X.PurgeChainCmd → Subcommand
    revert : X.RevertCmd → Subcommand
    benchmark : BenchmarkCmd → Subcommand
    chain_info : X.ChainInfoCmd → Subcommand

  pub record Cli : Type 0 where
    pub subcommand : Option Subcommand
    pub run_cmd : X.RunCmd
