-- ===== src/Node/Command/Runs.antt =====
-- node/src/command.rs: what a run does, with a subcommand and without.
use nexusguild.Base.{Bool, Option, none, some, ok, err, map_err, ◌≡◌, refl, ◌∙◌, sym, ap, ◌>>=◌}
use mathlib.Core.Path.{subst}
use nexusguild.Node.Cli.{CommandTypes, Subcommand, Cli}
use nexusguild.Node.Service.Host.{Types, Host, Configuration, NetworkBackendType, libp2p, litep2p}
use nexusguild.Node.Service.Log.{Building, Stopped}
use nexusguild.Node.Service.Full.{new_full}
use mathlib.Core.Option.{get_or}
use nexusguild.Node.Command.Host.{
  CliTypes, CliHost, IsRunner, World, stopped_error, build, propagate,
}
use nexusguild.Node.Command.Dispatch.{run_subcommand, new_full_over, run_node, run}
use nexusguild.Node.Command.Rules.{Ran}
use nexusguild.Node.Command.Reasons.{Why}
use nexusguild.Node.Command.Laws.{run_subcommand-Once}

module _ (Y : Types) (X : CommandTypes) (Z : CliTypes) (H : CliHost Y X Z)
    (backend : NetworkBackendType → Host Y) (runtime_benchmarks : Bool) (runner : IsRunner Y X Z H)
    (cli : Cli X) where
  run_of :
      (o : Option (Subcommand X))
      → cli.subcommand ≡ o
      → run Y X Z H backend runtime_benchmarks cli ≡ elim o [
        | some s ↦ run_subcommand Y X Z H backend runtime_benchmarks cli s
        | none ↦ run_node Y X Z H backend runtime_benchmarks cli
      ]
  unfolding run
  run_of o h =
      ap
        (λ o. elim o [
          | some s ↦ run_subcommand Y X Z H backend runtime_benchmarks cli s
          | none ↦ run_node Y X Z H backend runtime_benchmarks cli
        ])
        h

  -- A run with a subcommand either runs one command, which is the one of the subcommand, and gives
  -- what the command gave; or it runs none and gives an error, for one of these reasons, with its
  -- error: the runner was not created, and the subcommand is not `key`; the partial components of
  -- the runner's configuration were not built, by an error or a panic, and the subcommand works on
  -- the chain's data (it checks, exports, imports or reverts blocks, exports the state, or is a
  -- benchmark other than of a pallet or the machine); the inherent data was not made, for an
  -- overhead or an extrinsic benchmark; or the binary is without the feature, for a pallet or a
  -- storage benchmark. The hypotheses are that a runner calls the function that it is given with
  -- its configuration and runs the command that this gives, and that the subcommand is there.
  pub run-Ran :
      (s : Subcommand X)
      → cli.subcommand ≡ some s
      → (w : World Y X Z)
      → let out = run Y X Z H backend runtime_benchmarks cli w in
        Ran Y X Z H (Why Y X Z H backend runtime_benchmarks runner cli s) s w out.0 out.1
  run-Ran s h w =
      subst
        (λ m. Ran Y X Z H (Why Y X Z H backend runtime_benchmarks runner cli s) s w (m w).0 (m w).1)
        (sym (run_of (some s) h))
        ((run_subcommand-Once Y X Z H backend runtime_benchmarks runner cli s).from w)

  build_out :
      {A : Type 0} (m : Building Y A) (w : World Y X Z)
      → ((build Y X Z H.service_error m w).1 ≡ record w { tasks = (m w.tasks).1 })
        × ((e : Stopped Y.Error)
            → (m w.tasks).0 ≡ err e
            → (build Y X Z H.service_error m w).0 ≡ err (stopped_error Y X Z H.service_error e))
  unfolding build
  build_out m w = (refl, λ e h. ap (map_err (stopped_error Y X Z H.service_error)) h)

  new_full_over_out :
      (b : NetworkBackendType) (config : Configuration Y) (w : World Y X Z)
      → let built = new_full Y (backend b) config w.tasks in
        let out = new_full_over Y X Z H backend runtime_benchmarks b config w in
        (out.1 ≡ record w { tasks = built.1 })
        × ((e : Stopped Y.Error)
            → built.0 ≡ err e
            → out.0 ≡ err (stopped_error Y X Z H.service_error e))
  unfolding new_full_over
  new_full_over_out libp2p config w = build_out (new_full Y (backend libp2p) config) w
  new_full_over_out litep2p config w = build_out (new_full Y (backend litep2p) config) w

  run_node_out :
      (r : Z.Runner)
      → H.create_runner none cli ≡ ok r
      → run_node Y X Z H backend runtime_benchmarks cli
        ≡ H.run_node_until_exit r (λ config.
          new_full_over Y X Z H backend runtime_benchmarks
            (get_or config.network_backend H.default_backend)
            config)
  unfolding run_node ◌>>=◌ propagate
  run_node_out r h =
      ap
        (λ c. propagate Y X Z c >>= λ runner. H.run_node_until_exit runner (λ config.
          new_full_over Y X Z H backend runtime_benchmarks
            (get_or config.network_backend H.default_backend) config))
        h

  -- A run without a subcommand, once its runner is there, builds the node by `new_full` with the
  -- backend that the configuration selects, or with the default one: it spawns exactly the tasks
  -- that this spawns, runs no command, and if it stops with an error then the run gives that error,
  -- as one of the command line. The hypotheses are that a runner builds the node by the function
  -- that it is given, with its configuration, passes on its error and spawns no other task that is
  -- recorded here, that no subcommand is there and that the runner was created.
  pub run-new_full :
      cli.subcommand ≡ none
      → (r : Z.Runner) → H.create_runner none cli ≡ ok r
      → (w : World Y X Z)
      → let config = runner.config r in
        let built =
          new_full Y (backend (get_or config.network_backend H.default_backend)) config w.tasks in
        let out = run Y X Z H backend runtime_benchmarks cli w in
        (out.1.tasks ≡ built.1)
        × (out.1.invoked ≡ w.invoked)
        × ((e : Stopped Y.Error)
            → built.0 ≡ err e
            → out.0 ≡ err (stopped_error Y X Z H.service_error e))
  run-new_full none_given r c w =
      let config = runner.config r in
      let m = run_of none none_given ∙ run_node_out r c in
      let (tasks, fails) = runner.node r _ w in
      let (kept, failed_with) =
        new_full_over_out (get_or config.network_backend H.default_backend) config w in
      (
        ap (λ m. (m w).1.tasks) m ∙ ap (λ v. v.tasks) (tasks ∙ kept),
        ap (λ m. (m w).1.invoked) m ∙ ap (λ v. v.invoked) (tasks ∙ kept),
        λ e h. ap (λ m. (m w).0) m ∙ fails _ (failed_with e h),
      )
