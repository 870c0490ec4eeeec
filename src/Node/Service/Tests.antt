-- ===== src/Node/Service/Tests.antt =====
-- node/src/service.rs: the theorems on the example.
use mathlib.Core.List.{Nodup}
use nexusguild.Base.{
  ◌↔◌, sym, ok-inj, ◌>>=◌, pure, String, true, false, Option, none, some, Result, ok, err, ◌≡◌,
  refl, List, [], ◌∷◌, ◌++◌,
}
use nexusguild.Node.Rpc.{create_full}
use nexusguild.Node.Service.Example.{One, types, host, validator, host-IsRpc}
use nexusguild.Node.Service.Log.{
  task, service_tasks, Stopped, panic, kinds, TaskKind, Entry, attempt, expect, spawn,
  spawn_essential_blocking, start_service_tasks,
}
use nexusguild.Node.Service.Partial.{
  PartialComponents, new_partial, start_telemetry, spawn_telemetry,
}
use nexusguild.Node.Service.Full.{
  NetworkParts, new_full, start_network, start_offchain_workers, start_rpc, start_authoring,
  start_voter,
}
use nexusguild.Node.Service.Failures.{Failure, new_full-Failure}
use nexusguild.Base.{min, ◌*◌}
use nexusguild.Base.Words.{u64_max}
use nexusguild.Runtime.Time.{aura_slot_duration}
use nexusguild.Runtime.Apis.Consensus.{slot_duration}
use nexusguild.Node.Service.Slots.{AsksRuntime, SlotsAgree, new_full-SlotsAgree}
use nexusguild.Node.Service.Runs.{IsRun, new_full-IsRun}
use nexusguild.Node.Service.Tasks.{new_full-tasks, node_plan}
use nexusguild.Node.Service.Wiring.{create_full-methods_iff}

run : Result One (Option One) → Result (Stopped One) One × List (Entry types)
unfolding new_full new_partial start_telemetry spawn_telemetry start_network start_offchain_workers
    start_rpc start_authoring start_voter ◌>>=◌ attempt expect spawn spawn_essential_blocking
    start_service_tasks pure
run genesis = new_full types (host genesis) validator []

validator_tasks :
    kinds types (run (ok (some tt))).1
    ≡ task false false "telemetry" none
      ∷ service_tasks
      ∷ task true true "aura" (some "block-authoring")
      ∷ task true true "grandpa-voter" none
      ∷ []
unfolding run
validator_tasks = refl

-- Without a genesis block the node panics, and only the telemetry has started.
no_genesis_run :
    ((run (ok none)).0 ≡ err (panic "Genesis block exists; qed"))
    × (kinds types (run (ok none)).1 ≡ task false false "telemetry" none ∷ [])
unfolding run
no_genesis_run = (refl, refl)

new_full-tasks_example :
    let (r, log) = new_full types (host (ok none)) validator [] in
    ((manager : One)
      → r ≡ ok manager
      → kinds types log ≡ node_plan types (host (ok none)) validator)
    × ((e : Stopped One)
        → r ≡ err e
        → (rest : List TaskKind) × (kinds types log ++ rest
            ≡ node_plan types (host (ok none)) validator))
new_full-tasks_example = new_full-tasks types (host (ok none)) validator

abbrev parts : PartialComponents types
parts = record {
  client = tt;
  backend = tt;
  task_manager = tt;
  import_queue = tt;
  keystore_container = tt;
  select_chain = tt;
  transaction_pool = tt;
  block_import = tt;
  grandpa_link = tt;
  telemetry = none;
}

abbrev net : NetworkParts types
net = record {
  network = tt;
  system_rpc_tx = tt;
  tx_handler_controller = tt;
  sync_service = tt;
  protocol_name = tt;
  notification_service = tt;
}

create_full-methods_iff_example :
    (((m : List String) × (create_full types (host (ok none)) (record { client = tt; pool = tt })
          ≡ ok m))
      ↔ Nodup {A = String} ("system_accountNextIndex" ∷ "payment_queryInfo" ∷ []))
    × ((m : List String)
        → create_full types (host (ok none)) (record { client = tt; pool = tt }) ≡ ok m
        → m ≡ "system_accountNextIndex" ∷ "payment_queryInfo" ∷ [])
create_full-methods_iff_example =
    create_full-methods_iff types (host (ok none)) (λ m. m) (host-IsRpc (ok none))
      (record { client = tt; pool = tt })

no_genesis_panic :
    (new_full types (host (ok none)) validator []).0 ≡ err (panic "Genesis block exists; qed")
unfolding run new_full
no_genesis_panic = no_genesis_run.0

new_full-Failure_example :
    Failure types (host (ok none)) validator (panic "Genesis block exists; qed")
new_full-Failure_example =
    new_full-Failure types (host (ok none)) validator [] (panic "Genesis block exists; qed")
      no_genesis_panic

abbrev started : PartialComponents types
started = record {
  client = tt;
  backend = tt;
  task_manager = tt;
  import_queue = tt;
  keystore_container = tt;
  select_chain = tt;
  transaction_pool = tt;
  block_import = tt;
  grandpa_link = tt;
  telemetry = some tt;
}

new_partial-started : (new_partial types (host (ok none)) validator []).0 ≡ ok started
unfolding new_partial start_telemetry spawn_telemetry ◌>>=◌ attempt spawn pure
new_partial-started = refl

built_run : (run (ok (some tt))).0 ≡ ok tt
unfolding run
built_run = refl

built : (new_full types (host (ok (some tt))) validator []).0 ≡ ok tt
unfolding run new_full
built = built_run

new_full-IsRun_example :
    IsRun types
      (host (ok (some tt)))
      validator
      tt
      (new_full types (host (ok (some tt))) validator []).1
new_full-IsRun_example = new_full-IsRun types (host (ok (some tt))) validator tt built

asks_runtime : AsksRuntime types (host (ok (some tt))) (λ n. n) (λ n. min (n * 2) u64_max)
unfolding slot_duration aura_slot_duration
asks_runtime = record {
  doubles = λ n. refl;
  at = λ client parent duration read. sym (ok-inj read);
  at_best = λ client duration read. sym (ok-inj read);
}

new_full-SlotsAgree_example :
    SlotsAgree types
      (host (ok (some tt)))
      (λ n. n)
      validator
      tt
      (new_full types (host (ok (some tt))) validator []).1
new_full-SlotsAgree_example =
    new_full-SlotsAgree types (host (ok (some tt))) (λ n. n) (λ n. min (n * 2) u64_max) asks_runtime
      validator tt refl built
