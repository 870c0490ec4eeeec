-- ===== src/Node/Command/Steps.antt =====
-- node/src/command.rs: what a part of `run` keeps true of the commands, and what it knows of the
-- runner and of the partial components.
use nexusguild.Base.{Bool, All, Option, none, some, ok, ◌≡◌, sym, ◌>>=◌}
use mathlib.Core.Path.{subst}
use nexusguild.Node.Cli.{CommandTypes, Subcommand, Cli}
use nexusguild.Node.Service.Host.{Types, Host, Configuration, NetworkBackendType, libp2p, litep2p}
use nexusguild.Node.Service.Partial.{PartialComponents}
use nexusguild.Node.Service.Gives.{IsWired, new_partial-IsWired}
use nexusguild.Node.Command.Host.{CliTypes, CliHost, IsRunner, Run, Invocation}
use nexusguild.Node.Command.Dispatch.{
  partial_of, with_sync_runner, with_async_runner, run_subcommand, new_full_over, run_node, run,
}
use nexusguild.Node.Command.Keeps.{
  Keeps, Keeps-bind, Keeps-propagate, Keeps-build, Keeps-given, Keeps-as, propagate-ok, build-ok,
}

module _ (Y : Types) (X : CommandTypes) (Z : CliTypes) (H : CliHost Y X Z)
    (backend : NetworkBackendType → Host Y) (runtime_benchmarks : Bool) (runner : IsRunner Y X Z H)
    (cli : Cli X) (P : Invocation Y X Z → Type 0) where
  abbrev Kept : {A : Type 0} → Run Y X Z A → Type 0
  Kept m = Keeps Y X Z H P m

  -- The parts that are built belong together.
  pub after_parts :
      (config : Configuration Y) (f : PartialComponents Y → Run Y X Z (Unit {0}))
      → ((parts : PartialComponents Y)
          → IsWired Y (backend H.default_backend) config parts
          → Kept (f parts))
      → Kept (partial_of Y X Z H backend runtime_benchmarks config >>= f)
  unfolding partial_of
  after_parts config f h = Keeps-bind Y X Z H _ _ f (Keeps-build Y X Z H _ _ _) λ parts (w, e).
      h parts (new_partial-IsWired Y _ config w.tasks parts (build-ok Y X Z _ _ w parts e))

  pub with_sync_runner-Keeps :
      (s : Subcommand X) (f : Configuration Y → Run Y X Z (Unit {0}))
      → ((r : Z.Runner) → H.create_runner (some s) cli ≡ ok r → Kept (f (runner.config r)))
      → Kept (with_sync_runner Y X Z H backend runtime_benchmarks cli s f)
  unfolding with_sync_runner
  with_sync_runner-Keeps s f h =
      Keeps-bind Y X Z H _ _ _ (Keeps-propagate Y X Z H _ _)
        λ r (w, e). Keeps-as Y X Z H _ _ _ (runner.sync r f) (h r (propagate-ok Y X Z _ w r e))

  pub with_async_runner-Keeps :
      (s : Subcommand X) (f : Configuration Y → PartialComponents Y → Invocation Y X Z)
      → ((r : Z.Runner) (parts : PartialComponents Y)
          → H.create_runner (some s) cli ≡ ok r
          → IsWired Y (backend H.default_backend) (runner.config r) parts
          → P (f (runner.config r) parts))
      → Kept (with_async_runner Y X Z H backend runtime_benchmarks cli s f)
  unfolding with_async_runner partial_of
  with_async_runner-Keeps s f h = Keeps-bind Y X Z H _ _ _ (Keeps-propagate Y X Z H _ _) λ r (w, e).
      Keeps-as Y X Z H _ _ _ (runner.async r _) (
        Keeps-given Y X Z H _ _ _ _ (Keeps-build Y X Z H _ _ _) λ parts (v, d).
          h r parts (propagate-ok Y X Z _ w r e)
            (new_partial-IsWired Y _ _ v.tasks parts (build-ok Y X Z _ _ v parts d)))

  node-Kept :
      (r : Z.Runner) (f : Configuration Y → Run Y X Z Y.TaskManager)
      → Kept (f (runner.config r))
      → Kept (H.run_node_until_exit r f)
  node-Kept r f h = record {
    from = λ w q. subst (λ v. All P v.invoked) (sym (runner.node r f w).0) (h.from w q);
  }

  new_full_over-Keeps :
      (b : NetworkBackendType) (config : Configuration Y)
      → Kept (new_full_over Y X Z H backend runtime_benchmarks b config)
  unfolding new_full_over
  new_full_over-Keeps libp2p config = Keeps-build Y X Z H _ _ _
  new_full_over-Keeps litep2p config = Keeps-build Y X Z H _ _ _

  run_node-Keeps : Kept (run_node Y X Z H backend runtime_benchmarks cli)
  unfolding run_node
  run_node-Keeps =
      Keeps-bind Y X Z H _ _ _ (Keeps-propagate Y X Z H _ _)
        λ r _. node-Kept r _ (new_full_over-Keeps _ _)

  run_option :
      (o : Option (Subcommand X))
      → ((s : Subcommand X) → Kept (run_subcommand Y X Z H backend runtime_benchmarks cli s))
      → Kept (elim o [
        | some s ↦ run_subcommand Y X Z H backend runtime_benchmarks cli s
        | none ↦ run_node Y X Z H backend runtime_benchmarks cli
      ])
  run_option none h = run_node-Keeps
  run_option (some s) h = h s

  -- The node runs no command, so it is enough to look at the subcommands.
  pub run-Keeps :
      ((s : Subcommand X) → Kept (run_subcommand Y X Z H backend runtime_benchmarks cli s))
      → Kept (run Y X Z H backend runtime_benchmarks cli)
  unfolding run
  run-Keeps h = run_option cli.subcommand h
