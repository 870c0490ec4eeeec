-- ===== src/Node/Command/Laws.antt =====
-- node/src/command.rs: what a run does with a subcommand.
use nexusguild.Base.{
  err-inj, Bool, true, some, Result, ok, err, map_err, ◌≡◌, refl, sym, List, ◌>>=◌,
}
use Prim.Native.String.{◌++◌ as ◌<>◌}
use mathlib.Core.Path.{subst}
use nexusguild.Node.Cli.{
  CommandTypes, Subcommand, BenchmarkCmd, Cli, key, build_spec, check_block, export_blocks,
  export_state, import_blocks, purge_chain, revert, benchmark, chain_info, pallet, block, storage,
  overhead, extrinsic, machine,
}
use nexusguild.Node.Service.Host.{Types, Host, Configuration, NetworkBackendType}
use nexusguild.Node.Service.Log.{Entry, Stopped, failed}
use nexusguild.Node.Service.Partial.{PartialComponents, new_partial}
use nexusguild.Node.Command.Host.{
  CliTypes, CliHost, IsRunner, Invocation, command_of, Run, stopped_error, build, propagate,
}
use nexusguild.Node.Command.Dispatch.{
  partial_of, inherent_benchmark_data, run_benchmark, with_sync_runner, with_async_runner,
  run_subcommand,
}
use nexusguild.Node.Command.Rules.{
  Once, Quiet, Once-bind, Once-propagate, Quiet-build, Once-call_run, Once-refused, Once-given,
  Once-if, Once-as,
}
use nexusguild.Node.Command.Reasons.{
  Why, needs_inherent_data, needs_runner, needs_service, no_runner, no_service, no_inherent,
  no_pallet, no_storage,
}

module _ (Y : Types) (X : CommandTypes) (Z : CliTypes) (H : CliHost Y X Z)
    (backend : NetworkBackendType → Host Y) (runtime_benchmarks : Bool) (runner : IsRunner Y X Z H)
    (cli : Cli X) where
  service-Why :
      (s : Subcommand X) (r : Z.Runner) (tasks : List (Entry Y)) {e : Stopped Z.Error}
      (out : Result (Stopped Y.Error) (PartialComponents Y))
      → needs_service X s ≡ true
      → H.create_runner (some s) cli ≡ ok r
      → (new_partial Y (backend H.default_backend) (runner.config r) tasks).0 ≡ out
      → map_err (stopped_error Y X Z H.service_error) out ≡ err e
      → Why Y X Z H backend runtime_benchmarks runner cli s e
  service-Why s r tasks (ok parts) n c o h = cc
  service-Why s r tasks (err x) n c o h =
      subst (Why Y X Z H backend runtime_benchmarks runner cli s) (err-inj h)
        (no_service r tasks x n c o)

  inherent_out :
      (cmd : BenchmarkCmd X) (out : Result Z.ProviderError Z.InherentData) {e : Z.Error}
      → needs_inherent_data X cmd ≡ true
      → H.provide_inherent_data 0 ≡ out
      → map_err (λ e. H.text_error ("creating inherent data: " <> H.debug e)) out ≡ err e
      → Why Y X Z H backend runtime_benchmarks runner cli (benchmark cmd) (failed e)
  inherent_out cmd (ok data_given) n o h = cc
  inherent_out cmd (err x) n o h =
      subst (λ e. Why Y X Z H backend runtime_benchmarks runner cli (benchmark cmd) (failed e))
        (err-inj h) (no_inherent cmd x refl n o)

  inherent-Why :
      (cmd : BenchmarkCmd X) (e : Z.Error)
      → needs_inherent_data X cmd ≡ true
      → inherent_benchmark_data Y X Z H backend runtime_benchmarks ≡ err e
      → Why Y X Z H backend runtime_benchmarks runner cli (benchmark cmd) (failed e)
  unfolding inherent_benchmark_data
  inherent-Why cmd e n h = inherent_out cmd _ n refl h

  module _ (s : Subcommand X) (r : Z.Runner) (needed : needs_service X s ≡ true)
      (created : H.create_runner (some s) cli ≡ ok r) where
    Quiet-partial_of :
        Quiet Y X Z H
          (Why Y X Z H backend runtime_benchmarks runner cli s)
          (partial_of Y X Z H backend runtime_benchmarks (runner.config r))
    unfolding partial_of build
    Quiet-partial_of =
        Quiet-build Y X Z H _ _ _ λ w e h. service-Why s r w.tasks _ needed created refl h

    -- A benchmark whose partial components are built first.
    after_parts :
        (f : PartialComponents Y → Run Y X Z (Unit {0}))
        → ((parts : PartialComponents Y)
            → Once Y X Z H (Why Y X Z H backend runtime_benchmarks runner cli s) s (f parts))
        → Once Y X Z H
            (Why Y X Z H backend runtime_benchmarks runner cli s)
            s
            (partial_of Y X Z H backend runtime_benchmarks (runner.config r) >>= f)
    after_parts f h = Once-bind Y X Z H _ s _ f Quiet-partial_of h

  -- A benchmark with the partial components and the inherent data.
  after_inherent :
      (cmd : BenchmarkCmd X) (f : Z.InherentData → Run Y X Z (Unit {0}))
      → needs_inherent_data X cmd ≡ true
      → ((given : Z.InherentData)
          → Once Y X Z H
              (Why Y X Z H backend runtime_benchmarks runner cli (benchmark cmd))
              (benchmark cmd)
              (f given))
      → Once Y X Z H
          (Why Y X Z H backend runtime_benchmarks runner cli (benchmark cmd))
          (benchmark cmd)
          (propagate Y X Z (inherent_benchmark_data Y X Z H backend runtime_benchmarks) >>= f)
  after_inherent cmd f n h =
      Once-propagate Y X Z H _ _ _ f (λ e q. inherent-Why cmd e n q) λ given _. h given

  run_benchmark-Once :
      (cmd : BenchmarkCmd X) (r : Z.Runner)
      → H.create_runner (some (benchmark cmd)) cli ≡ ok r
      → Once Y X Z H
          (Why Y X Z H backend runtime_benchmarks runner cli (benchmark cmd))
          (benchmark cmd)
          (run_benchmark Y X Z H backend runtime_benchmarks cmd (runner.config r))
  unfolding run_benchmark
  run_benchmark-Once (pallet cmd) r c =
      Once-if Y X Z H _ _ runtime_benchmarks _ _ (Once-call_run Y X Z H _ _)
        λ off. Once-refused Y X Z H _ _ _ (no_pallet cmd refl off)
  run_benchmark-Once (block cmd) r c = after_parts _ r refl c _ λ parts. Once-call_run Y X Z H _ _
  run_benchmark-Once (storage cmd) r c =
      Once-if Y X Z H _ _ runtime_benchmarks _ _
        (after_parts _ r refl c _ λ parts. Once-call_run Y X Z H _ _)
        λ off. Once-refused Y X Z H _ _ _ (no_storage cmd refl off)
  run_benchmark-Once (overhead cmd) r c =
      after_parts _ r refl c _ λ parts. after_inherent _ _ refl λ given. Once-call_run Y X Z H _ _
  run_benchmark-Once (extrinsic cmd) r c =
      after_parts _ r refl c _ λ parts. after_inherent _ _ refl λ given. Once-call_run Y X Z H _ _
  run_benchmark-Once (machine cmd) r c = Once-call_run Y X Z H _ _

  with_sync_runner-Once :
      (s : Subcommand X) (f : Configuration Y → Run Y X Z (Unit {0}))
      → needs_runner X s ≡ true
      → ((r : Z.Runner)
          → H.create_runner (some s) cli ≡ ok r
          → Once Y X Z H
              (Why Y X Z H backend runtime_benchmarks runner cli s)
              s
              (f (runner.config r)))
      → Once Y X Z H
          (Why Y X Z H backend runtime_benchmarks runner cli s)
          s
          (with_sync_runner Y X Z H backend runtime_benchmarks cli s f)
  unfolding with_sync_runner
  with_sync_runner-Once s f n h =
      Once-propagate Y X Z H _ s _ _ (λ e. no_runner e n)
        λ r c. Once-as Y X Z H _ s _ _ (sym (runner.sync r f)) (h r c)

  with_async_runner-Once :
      (s : Subcommand X) (f : Configuration Y → PartialComponents Y → Invocation Y X Z)
      → needs_runner X s ≡ true
      → needs_service X s ≡ true
      → ((config : Configuration Y) (parts : PartialComponents Y)
          → command_of Y X Z (f config parts) ≡ s)
      → Once Y X Z H
          (Why Y X Z H backend runtime_benchmarks runner cli s)
          s
          (with_async_runner Y X Z H backend runtime_benchmarks cli s f)
  unfolding with_async_runner
  with_async_runner-Once s f m n h =
      Once-propagate Y X Z H _ s _ _ (λ e. no_runner e m)
        λ r c.
          Once-as Y X Z H _ s _ _ (sym (runner.async r _))
            (Once-given Y X Z H _ s _ _ _ (Quiet-partial_of s r n c) (h (runner.config r)))

  pub run_subcommand-Once :
      (s : Subcommand X)
      → Once Y X Z H
          (Why Y X Z H backend runtime_benchmarks runner cli s)
          s
          (run_subcommand Y X Z H backend runtime_benchmarks cli s)
  unfolding run_subcommand
  run_subcommand-Once (key cmd) = Once-call_run Y X Z H _ _
  run_subcommand-Once (build_spec cmd) =
      with_sync_runner-Once _ _ refl λ r c. Once-call_run Y X Z H _ _
  run_subcommand-Once (check_block cmd) = with_async_runner-Once _ _ refl refl λ config parts. refl
  run_subcommand-Once (export_blocks cmd) =
      with_async_runner-Once _ _ refl refl λ config parts. refl
  run_subcommand-Once (export_state cmd) = with_async_runner-Once _ _ refl refl λ config parts. refl
  run_subcommand-Once (import_blocks cmd) =
      with_async_runner-Once _ _ refl refl λ config parts. refl
  run_subcommand-Once (purge_chain cmd) =
      with_sync_runner-Once _ _ refl λ r c. Once-call_run Y X Z H _ _
  run_subcommand-Once (revert cmd) = with_async_runner-Once _ _ refl refl λ config parts. refl
  run_subcommand-Once (benchmark cmd) = with_sync_runner-Once _ _ refl (run_benchmark-Once cmd)
  run_subcommand-Once (chain_info cmd) =
      with_sync_runner-Once _ _ refl λ r c. Once-call_run Y X Z H _ _
