-- ===== src/Node/Command/Given.antt =====
-- node/src/command.rs: what the commands of a run are given.
use nexusguild.Base.{ℕ, Bool, true, false, All, some, ok, and_then, arith, ◌≡◌, refl, [], ◌∷◌}
use nexusguild.Runtime.Currency.{existential_deposit}
use nexusguild.Node.Cli.{
  CommandTypes, Subcommand, BenchmarkCmd, Cli, key, build_spec, check_block, export_blocks,
  export_state, import_blocks, purge_chain, revert, benchmark, chain_info, pallet, block, storage,
  overhead, extrinsic, machine,
}
use nexusguild.Node.Service.Host.{Types, Host, Configuration, NetworkBackendType}
use nexusguild.Node.Service.Partial.{PartialComponents}
use nexusguild.Node.Service.Gives.{IsWired}
use nexusguild.Node.Command.Host.{
  CliTypes, CliHost, IsRunner, World, Run, Invocation, AuxRevert, remark_builder,
  transfer_keep_alive_builder, run_key, run_build_spec, run_check_block, run_export_blocks,
  run_export_state, run_import_blocks, run_purge_chain, run_revert, run_chain_info, run_pallet,
  run_block, run_storage, run_overhead, run_extrinsic, run_machine,
}
use nexusguild.Node.Command.Dispatch.{run_benchmark, run_subcommand, inherent_benchmark_data, run}
use nexusguild.Node.Command.Keeps.{
  Keeps, Keeps-bind, Keeps-propagate, Keeps-call_run, Keeps-if, propagate-ok, map_err-ok,
}
use nexusguild.Node.Command.Steps.{
  after_parts, with_sync_runner-Keeps, with_async_runner-Keeps, run-Keeps,
}

module _ (Y : Types) (X : CommandTypes) (Z : CliTypes) (H : CliHost Y X Z)
    (backend : NetworkBackendType → Host Y) (runtime_benchmarks : Bool) (runner : IsRunner Y X Z H)
    (cli : Cli X) where
  -- By the configuration of a runner that was made for this subcommand.
  abbrev Configured : Subcommand X → (Configuration Y → Type 0) → Type 0
  Configured s Q = (r : Z.Runner) × (H.create_runner (some s) cli ≡ ok r) × Q (runner.config r)

  -- By parts of one node of this configuration, which belong together.
  abbrev Assembled : Configuration Y → (PartialComponents Y → Type 0) → Type 0
  Assembled config Q =
      (parts : PartialComponents Y) × IsWired Y (backend H.default_backend) config parts × Q parts

  -- The command is given what the source hands to it, all of one configuration and of one set of
  -- parts.
  abbrev pub Given : Invocation Y X Z → Type 0
  Given (run_key c given) = given ≡ cli
  Given (run_build_spec c spec network) =
      Configured (build_spec c)
        λ config. (spec ≡ H.chain_spec config) × (network ≡ H.network config)
  Given (run_check_block c client queue) =
      Configured (check_block c)
        λ config. Assembled config λ parts. (client ≡ parts.client) × (queue ≡ parts.import_queue)
  Given (run_export_blocks c client database) =
      Configured (export_blocks c)
        λ config. Assembled config λ parts. (client ≡ parts.client) × (database ≡ H.database config)
  Given (run_export_state c client spec) =
      Configured (export_state c)
        λ config. Assembled config λ parts. (client ≡ parts.client) × (spec ≡ H.chain_spec config)
  Given (run_import_blocks c client queue) =
      Configured (import_blocks c)
        λ config. Assembled config λ parts. (client ≡ parts.client) × (queue ≡ parts.import_queue)
  Given (run_purge_chain c database) =
      Configured (purge_chain c) λ config. database ≡ H.database config
  Given (run_revert c client store aux) = Configured (revert c) λ config. Assembled config λ parts.
      (client ≡ parts.client)
      × (store ≡ parts.backend)
      × (f : AuxRevert Y X Z) × (aux ≡ some f)
      × ((k : Y.Client) (b : Y.Backend) (n : ℕ) → f k b n ≡ H.grandpa_revert k n)
  Given (run_chain_info c given) = Configured (chain_info c) λ config. given ≡ config
  Given (run_pallet c spec) =
      Configured (benchmark (pallet c))
        λ config. (runtime_benchmarks ≡ true) × (spec ≡ some (H.chain_spec config))
  Given (run_block c client) =
      Configured (benchmark (block c)) λ config. Assembled config λ parts. client ≡ parts.client
  Given (run_storage c given client db state) = Configured (benchmark (storage c)) λ config.
      Assembled config λ parts.
        (runtime_benchmarks ≡ true)
        × (given ≡ config)
        × (client ≡ parts.client)
        × (db ≡ H.expose_db parts.backend)
        × (state ≡ H.expose_storage parts.backend)
  Given (run_overhead c name client inherent digests builder flag) =
      Configured (benchmark (overhead c)) λ config. Assembled config λ parts.
        (name ≡ H.spec_name (H.chain_spec config))
        × (client ≡ parts.client)
        × (H.provide_inherent_data 0 ≡ ok inherent)
        × (digests ≡ [])
        × (builder ≡ remark_builder parts.client)
        × (flag ≡ false)
  Given (run_extrinsic c client inherent digests builders) =
      Configured (benchmark (extrinsic c)) λ config. Assembled config λ parts.
        (client ≡ parts.client)
        × (H.provide_inherent_data 0 ≡ ok inherent)
        × (digests ≡ [])
        × (builders
            ≡ remark_builder parts.client
              ∷ transfer_keep_alive_builder parts.client H.alice_account existential_deposit
              ∷ [])
  Given (run_machine c given hardware) =
      Configured (benchmark (machine c))
        λ config. (given ≡ config) × (hardware ≡ H.reference_hardware)

module _ (Y : Types) (X : CommandTypes) (Z : CliTypes) (H : CliHost Y X Z)
    (backend : NetworkBackendType → Host Y) (runtime_benchmarks : Bool) (runner : IsRunner Y X Z H)
    (cli : Cli X) where
  abbrev Orderly : {A : Type 0} → Run Y X Z A → Type 0
  Orderly m = Keeps Y X Z H (Given Y X Z H backend runtime_benchmarks runner cli) m

  provided :
      (inherent : Z.InherentData)
      → inherent_benchmark_data Y X Z H backend runtime_benchmarks ≡ ok inherent
      → H.provide_inherent_data 0 ≡ ok inherent
  unfolding inherent_benchmark_data
  provided inherent h = map_err-ok _ (H.provide_inherent_data 0) h

  run_benchmark-Orderly :
      (cmd : BenchmarkCmd X) (r : Z.Runner)
      → H.create_runner (some (benchmark cmd)) cli ≡ ok r
      → Orderly (run_benchmark Y X Z H backend runtime_benchmarks cmd (runner.config r))
  unfolding run_benchmark
  run_benchmark-Orderly (pallet cmd) r e =
      Keeps-if Y X Z H _ runtime_benchmarks _ _
        (λ on. Keeps-call_run Y X Z H _ _ (r, e, (on, refl))) (λ off. Keeps-propagate Y X Z H _ _)
  run_benchmark-Orderly (block cmd) r e =
      after_parts Y X Z H backend runtime_benchmarks runner cli _ _ _
        λ parts wired. Keeps-call_run Y X Z H _ _ (r, e, (parts, wired, refl))
  run_benchmark-Orderly (storage cmd) r e =
      Keeps-if Y X Z H _ runtime_benchmarks _ _
        (λ on. after_parts Y X Z H backend runtime_benchmarks runner cli _ _ _ λ parts wired.
          Keeps-call_run Y X Z H _ _ (r, e, (parts, wired, (on, refl, refl, refl, refl))))
        (λ off. Keeps-propagate Y X Z H _ _)
  run_benchmark-Orderly (overhead cmd) r e =
      after_parts Y X Z H backend runtime_benchmarks runner cli _ _ _ λ parts wired.
        Keeps-bind Y X Z H _ _ _ (Keeps-propagate Y X Z H _ _) λ inherent (w, d).
          let fed = provided inherent (propagate-ok Y X Z _ w inherent d) in
          Keeps-call_run Y X Z H _ _ (r, e, (parts, wired, (refl, refl, fed, refl, refl, refl)))
  run_benchmark-Orderly (extrinsic cmd) r e =
      after_parts Y X Z H backend runtime_benchmarks runner cli _ _ _ λ parts wired.
        Keeps-bind Y X Z H _ _ _ (Keeps-propagate Y X Z H _ _) λ inherent (w, d).
          let fed = provided inherent (propagate-ok Y X Z _ w inherent d) in
          Keeps-call_run Y X Z H _ _ (r, e, (parts, wired, (refl, fed, refl, refl)))
  run_benchmark-Orderly (machine cmd) r e = Keeps-call_run Y X Z H _ _ (r, e, (refl, refl))

  grandpa_reverts :
      (k : Y.Client) (n : ℕ) → (and_then (H.grandpa_revert k n) λ _. ok tt) ≡ H.grandpa_revert k n
  grandpa_reverts k n = ground arith

  run_subcommand-Orderly :
      (s : Subcommand X) → Orderly (run_subcommand Y X Z H backend runtime_benchmarks cli s)
  unfolding run_subcommand
  run_subcommand-Orderly (key cmd) = Keeps-call_run Y X Z H _ _ refl
  run_subcommand-Orderly (build_spec cmd) =
      with_sync_runner-Keeps Y X Z H backend runtime_benchmarks runner cli _ _ _
        λ r e. Keeps-call_run Y X Z H _ _ (r, e, (refl, refl))
  run_subcommand-Orderly (check_block cmd) =
      with_async_runner-Keeps Y X Z H backend runtime_benchmarks runner cli _ _ _
        λ r parts e wired. (r, e, (parts, wired, (refl, refl)))
  run_subcommand-Orderly (export_blocks cmd) =
      with_async_runner-Keeps Y X Z H backend runtime_benchmarks runner cli _ _ _
        λ r parts e wired. (r, e, (parts, wired, (refl, refl)))
  run_subcommand-Orderly (export_state cmd) =
      with_async_runner-Keeps Y X Z H backend runtime_benchmarks runner cli _ _ _
        λ r parts e wired. (r, e, (parts, wired, (refl, refl)))
  run_subcommand-Orderly (import_blocks cmd) =
      with_async_runner-Keeps Y X Z H backend runtime_benchmarks runner cli _ _ _
        λ r parts e wired. (r, e, (parts, wired, (refl, refl)))
  run_subcommand-Orderly (purge_chain cmd) =
      with_sync_runner-Keeps Y X Z H backend runtime_benchmarks runner cli _ _ _
        λ r e. Keeps-call_run Y X Z H _ _ (r, e, refl)
  run_subcommand-Orderly (revert cmd) =
      with_async_runner-Keeps Y X Z H backend runtime_benchmarks runner cli _ _ _ λ r parts e wired.
        (r, e, (parts, wired, (refl, refl, _, refl, λ k b n. grandpa_reverts k n)))
  run_subcommand-Orderly (benchmark cmd) =
      with_sync_runner-Keeps Y X Z H backend runtime_benchmarks runner cli _ _ _
        λ r e. run_benchmark-Orderly cmd r e
  run_subcommand-Orderly (chain_info cmd) =
      with_sync_runner-Keeps Y X Z H backend runtime_benchmarks runner cli _ _ _
        λ r e. Keeps-call_run Y X Z H _ _ (r, e, refl)

  -- Whatever the arguments of the node are, the command of a run is given what belongs together:
  -- the chain specification, the database and the network of the configuration of a runner that was
  -- made for the subcommand; the client, the backend and the import queue of one set of parts,
  -- which `new_partial` wired for that configuration; for a revert the function that reverts
  -- GRANDPA by the same number of blocks; and for the benchmarks of the overhead and of extrinsics
  -- the inherent data of time 0, no digests, and the builders over that client, where a transfer
  -- goes to Alice and is of the existential deposit. The benchmarks of pallets and of the storage
  -- are run only where the feature is enabled. It is assumed that a runner calls the function that
  -- it is handed, and that the same holds of the commands recorded before the run.
  pub run-Given :
      (w : World Y X Z)
      → All (Given Y X Z H backend runtime_benchmarks runner cli) w.invoked
      → All
          (Given Y X Z H backend runtime_benchmarks runner cli)
          (run Y X Z H backend runtime_benchmarks cli w).1.invoked
  run-Given w h =
      (run-Keeps Y X Z H backend runtime_benchmarks runner cli _ run_subcommand-Orderly).from w h
