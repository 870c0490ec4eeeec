-- ===== src/Node/Command/Factory.antt =====
-- node/src/command.rs with node/src/benchmarking.rs: the builders of extrinsics that a run hands to
-- the benchmarks.
use nexusguild.Base.{ℕ, String, Bool, true, some, ok, All, ◌≤◌, ◌≡◌, []}
use nexusguild.Runtime.Time.{block_hash_count}
use native.Mathlib.Nat.{le_refl}
use nexusguild.Runtime.Currency.{existential_deposit}
use nexusguild.Node.Cli.{
  CommandTypes, Subcommand, BenchmarkCmd, Cli, key, build_spec, check_block, export_blocks,
  export_state, import_blocks, purge_chain, revert, benchmark, chain_info, pallet, block, storage,
  overhead, extrinsic, machine,
}
use nexusguild.Node.Benchmarking.{TxApi, Client, Extension, Implicit, era_period}
use nexusguild.Node.Benchmarking.Signing.{IsImplicit}
use nexusguild.Node.Benchmarking.Builders.{IsHonest, builders-IsHonest}
use nexusguild.Node.Benchmarking.Builders
use nexusguild.Node.Service.Host.{Types, Host, Configuration, NetworkBackendType}
use nexusguild.Node.Command.Host.{
  CliTypes, CliHost, IsRunner, World, Run, Invocation, ExtrinsicBuilder, remark_builder,
  transfer_keep_alive_builder, run_overhead, run_extrinsic,
}
use nexusguild.Node.Command.Dispatch.{run_benchmark, run_subcommand, run}
use nexusguild.Node.Command.Steps.{
  after_parts, with_sync_runner-Keeps, with_async_runner-Keeps, run-Keeps,
}
use nexusguild.Node.Command.Keeps.{Keeps, Keeps-bind, Keeps-propagate, Keeps-call_run, Keeps-if}

-- How the commands' values are seen by the benchmarks, and what those rely on.
pub record ChainView (Y : Types) (Z : CliTypes) (T : TxApi) : Type 0 where
  pub client_of : Y.Client → Client T
  pub account_of : Z.AccountId → T.AccountId
  pub name_of : T.RuntimeCall → String × String
  pub implicit : Extension T.Era → Implicit T.Hash
  pub verify : T.AccountId → T.Bytes → T.Signature → Bool
  pub genesis : T.Hash
  pub birth : T.Era → T.Hash

-- What Substrate documents of them: the names of the two calls, what each extension adds to the
-- payload, that a signature verifies for the account of its pair, and that every client has the
-- genesis block. The era of an extrinsic begins at the best block, where no block is imported
-- between the two questions for it.
pub record IsView (Y : Types) (Z : CliTypes) (T : TxApi) (V : ChainView Y Z T) : Type 0 where
  pub remark_name : V.name_of (T.remark []) ≡ ("system", "remark")
  pub transfer_name :
      (dest : T.AccountId) (value : ℕ)
      → V.name_of (T.transfer_keep_alive dest value) ≡ ("balances", "transfer_keep_alive")
  pub adds : IsImplicit T V.implicit V.genesis V.birth
  pub verifies : (p : T.Pair) (m : T.Bytes) → V.verify (T.account_of p) m (T.sign p m) ≡ true
  pub has_genesis : (c : Y.Client) → (V.client_of c).block_hash 0 ≡ ok (some V.genesis)
  pub begins :
      (c : Y.Client)
      → V.birth (T.mortal (era_period block_hash_count) (V.client_of c).best_number)
        ≡ (V.client_of c).best_hash

module _ (Y : Types) (X : CommandTypes) (Z : CliTypes) (T : TxApi) (V : ChainView Y Z T) where
  -- The builder that an argument stands for, as the benchmark sees it.
  abbrev pub realize : ExtrinsicBuilder Y X Z → Builders.ExtrinsicBuilder T
  realize (remark_builder c) = Builders.remark_builder T (record { client = V.client_of c })
  realize (transfer_keep_alive_builder c dest value) =
      Builders.transfer_keep_alive_builder T
        (record { client = V.client_of c; dest = V.account_of dest; value = value })

  -- The builder builds what it announces, for the best block of this client and any nonce.
  abbrev pub Serves : Y.Client → ExtrinsicBuilder Y X Z → Type 0
  Serves c b =
      (nonce : ℕ)
      → IsHonest T V.name_of V.implicit V.verify (realize b) (V.client_of c).best_number nonce

  -- A transfer leaves the receiver with the existential deposit at least.
  abbrev pub KeepsAlive : ExtrinsicBuilder Y X Z → Type 0
  KeepsAlive (remark_builder c) = Unit
  KeepsAlive (transfer_keep_alive_builder c dest value) = existential_deposit ≤ value

  -- All builders that the command is given do, for the client that it is given.
  abbrev pub Served : Invocation Y X Z → Type 0
  Served (run_overhead _ _ c _ _ b _) = Serves c b
  Served (run_extrinsic _ c _ _ builders) = All (λ b. Serves c b × KeepsAlive b) builders
  Served i = Unit

module _ (Y : Types) (X : CommandTypes) (Z : CliTypes) (T : TxApi) (V : ChainView Y Z T)
    (L : IsView Y Z T V) where
  builders-Serves :
      (c : Y.Client) (dest : Z.AccountId) (value : ℕ)
      → Serves Y X Z T V c (remark_builder c)
        × Serves Y X Z T V c (transfer_keep_alive_builder c dest value)
  builders-Serves c dest value =
      let both = λ (nonce : ℕ).
        builders-IsHonest T V.name_of V.implicit V.verify V.genesis V.birth
          (record { client = V.client_of c; dest = V.account_of dest; value = value }) nonce
          L.remark_name L.transfer_name L.adds L.verifies (L.has_genesis c) (L.begins c) in
      (λ nonce. (both nonce).0, λ nonce. (both nonce).1)

  module _ (H : CliHost Y X Z) (backend : NetworkBackendType → Host Y) (runtime_benchmarks : Bool)
      (runner : IsRunner Y X Z H) (cli : Cli X) where
    abbrev Safe : {A : Type 0} → Run Y X Z A → Type 0
    Safe m = Keeps Y X Z H (Served Y X Z T V) m

    run_benchmark-Safe :
        (cmd : BenchmarkCmd X) (config : Configuration Y)
        → Safe (run_benchmark Y X Z H backend runtime_benchmarks cmd config)
    unfolding run_benchmark
    run_benchmark-Safe (pallet cmd) config =
        Keeps-if Y X Z H _ runtime_benchmarks _ _ (λ on. Keeps-call_run Y X Z H _ _ tt)
          (λ off. Keeps-propagate Y X Z H _ _)
    run_benchmark-Safe (block cmd) config =
        after_parts Y X Z H backend runtime_benchmarks runner cli _ config _
          λ parts _. Keeps-call_run Y X Z H _ _ tt
    run_benchmark-Safe (storage cmd) config =
        Keeps-if Y X Z H _ runtime_benchmarks _ _
          (λ on.
            after_parts Y X Z H backend runtime_benchmarks runner cli _ config _
              λ parts _. Keeps-call_run Y X Z H _ _ tt)
          (λ off. Keeps-propagate Y X Z H _ _)
    run_benchmark-Safe (overhead cmd) config =
        after_parts Y X Z H backend runtime_benchmarks runner cli _ config _ λ parts _.
          Keeps-bind Y X Z H _ _ _ (Keeps-propagate Y X Z H _ _) λ inherent _.
            Keeps-call_run Y X Z H _ _ (builders-Serves parts.client H.alice_account 0).0
    run_benchmark-Safe (extrinsic cmd) config =
        after_parts Y X Z H backend runtime_benchmarks runner cli _ config _ λ parts _.
          Keeps-bind Y X Z H _ _ _ (Keeps-propagate Y X Z H _ _) λ inherent _.
            let (remarks, transfers) = builders-Serves parts.client H.alice_account _ in
            Keeps-call_run Y X Z H _ _ ((remarks, tt), ((transfers, le_refl _), tt))
    run_benchmark-Safe (machine cmd) config = Keeps-call_run Y X Z H _ _ tt

    run_subcommand-Safe :
        (s : Subcommand X) → Safe (run_subcommand Y X Z H backend runtime_benchmarks cli s)
    unfolding run_subcommand
    run_subcommand-Safe (key cmd) = Keeps-call_run Y X Z H _ _ tt
    run_subcommand-Safe (build_spec cmd) =
        with_sync_runner-Keeps Y X Z H backend runtime_benchmarks runner cli _ _ _
          λ r _. Keeps-call_run Y X Z H _ _ tt
    run_subcommand-Safe (check_block cmd) =
        with_async_runner-Keeps Y X Z H backend runtime_benchmarks runner cli _ _ _
          λ r parts _ _. tt
    run_subcommand-Safe (export_blocks cmd) =
        with_async_runner-Keeps Y X Z H backend runtime_benchmarks runner cli _ _ _
          λ r parts _ _. tt
    run_subcommand-Safe (export_state cmd) =
        with_async_runner-Keeps Y X Z H backend runtime_benchmarks runner cli _ _ _
          λ r parts _ _. tt
    run_subcommand-Safe (import_blocks cmd) =
        with_async_runner-Keeps Y X Z H backend runtime_benchmarks runner cli _ _ _
          λ r parts _ _. tt
    run_subcommand-Safe (purge_chain cmd) =
        with_sync_runner-Keeps Y X Z H backend runtime_benchmarks runner cli _ _ _
          λ r _. Keeps-call_run Y X Z H _ _ tt
    run_subcommand-Safe (revert cmd) =
        with_async_runner-Keeps Y X Z H backend runtime_benchmarks runner cli _ _ _
          λ r parts _ _. tt
    run_subcommand-Safe (benchmark cmd) =
        with_sync_runner-Keeps Y X Z H backend runtime_benchmarks runner cli _ _ _
          λ r _. run_benchmark-Safe cmd _
    run_subcommand-Safe (chain_info cmd) =
        with_sync_runner-Keeps Y X Z H backend runtime_benchmarks runner cli _ _ _
          λ r _. Keeps-call_run Y X Z H _ _ tt

    -- Whatever the arguments of the node are: where a run hands builders of extrinsics to a
    -- benchmark, each of them builds, for the best block of the client that the benchmark is given
    -- and for any nonce, an extrinsic of the pallet and of the call that it announces, signed by
    -- Bob, with a signature that the runtime verifies, and a transfer among them leaves the
    -- receiver with the existential deposit at least. The hypotheses are those on Substrate, that
    -- every client has the genesis block and is asked for its best block with no import in between,
    -- that a runner calls the function that it is handed, and that the same holds of the commands
    -- recorded before the run.
    pub run-Served :
        (w : World Y X Z)
        → All (Served Y X Z T V) w.invoked
        → All (Served Y X Z T V) (run Y X Z H backend runtime_benchmarks cli w).1.invoked
    run-Served w h =
        (run-Keeps Y X Z H backend runtime_benchmarks runner cli _ run_subcommand-Safe).from w h
