-- ===== src/Node/Service/Tasks.antt =====
-- node/src/service.rs: the tasks of the whole node, by its configuration.
use nexusguild.Base.{
  Bool, true, false, not, if◌then◌else◌, Option, none, some, ok, err, ◌≡◌, List, [], ◌∷◌, ◌++◌,
  arith,
}
use nexusguild.Node.Service.Host.{Types, Host, Configuration}
use nexusguild.Node.Service.Log.{TaskKind, task, service_tasks, kinds, Stopped}
use nexusguild.Node.Service.Partial.{
  PartialComponents, is_authority, start_telemetry, spawn_telemetry, new_partial,
}
use nexusguild.Node.Service.Full.{
  NetworkParts, start_network, start_offchain_workers, start_rpc, start_authoring, start_voter,
  new_full,
}
use nexusguild.Node.Service.Effects.{
  Plans, Plans-bind, Plans-as, Plans-last, Adds-outcomes, Plans-attempt, Plans-expect, Plans-pure,
  Plans-spawn, Plans-spawn_essential_blocking, Plans-start_service_tasks, Plans-if,
}

module _ (Y : Types) (H : Host Y) where
  abbrev pub has_telemetry : Option Y.Endpoints → Bool
  has_telemetry none = false
  has_telemetry (some endpoints) = not (H.is_empty endpoints)

  abbrev pub telemetry_plan : Option Y.Endpoints → List TaskKind
  telemetry_plan endpoints =
      if has_telemetry endpoints then task false false "telemetry" none ∷ [] else []

  -- The tasks of a node: the telemetry where it has endpoints, the offchain workers where they are
  -- enabled, those of the service, the author of an authority, and the voter unless GRANDPA is
  -- disabled. The last two are essential and blocking.
  abbrev pub node_plan : Configuration Y → List TaskKind
  node_plan config =
      telemetry_plan config.telemetry_endpoints
      ++ ((if config.offchain_enabled
            then task false false "offchain-workers-runner" (some "offchain-worker") ∷ []
            else [])
          ++ (service_tasks
              ∷ ((if is_authority config.role
                    then task true true "aura" (some "block-authoring") ∷ []
                    else [])
                  ++ (if not config.disable_grandpa
                      then task true true "grandpa-voter" none ∷ []
                      else []))))

  abbrev plan_of : Option (Y.TelemetryWorker × Y.Telemetry) → List TaskKind
  plan_of none = []
  plan_of (some _) = task false false "telemetry" none ∷ []

  spawn_telemetry-Plans :
      (telemetry : Option (Y.TelemetryWorker × Y.Telemetry))
      → Plans Y (plan_of telemetry) (spawn_telemetry Y H telemetry)
  unfolding spawn_telemetry
  spawn_telemetry-Plans none = Plans-pure Y none
  spawn_telemetry-Plans (some (worker, telemetry)) =
      Plans-bind Y (task false false "telemetry" none ∷ []) [] _ _
        (Plans-spawn Y "telemetry" none (H.telemetry_run worker))
        (λ _. Plans-pure Y (some telemetry))

  start_telemetry_plan :
      (endpoints : Option Y.Endpoints) {telemetry : Option (Y.TelemetryWorker × Y.Telemetry)}
      → start_telemetry Y H endpoints ≡ ok telemetry
      → plan_of telemetry ≡ telemetry_plan endpoints
  unfolding start_telemetry
  start_telemetry_plan endpoints h = ground arith

  new_partial-Plans :
      (config : Configuration Y)
      → Plans Y (telemetry_plan config.telemetry_endpoints) (new_partial Y H config)
  unfolding new_partial
  new_partial-Plans config = Plans-attempt Y _ _ _ λ telemetry started.
      Plans-attempt Y _ _ _ λ parts _.
        Plans-as Y (plan_of telemetry) _ _ (start_telemetry_plan config.telemetry_endpoints started)
          (Plans-last Y (plan_of telemetry) _ _ (spawn_telemetry-Plans telemetry) λ kept.
            Plans-attempt Y [] _ _ λ grandpa _. Plans-attempt Y [] _ _ λ queue _. Plans-pure Y _)

  start_network-Plans :
      (config : Configuration Y) (parts : PartialComponents Y)
      → Plans Y [] (start_network Y H config parts)
  unfolding start_network
  start_network-Plans config parts =
      Plans-expect Y [] _ _ _ λ genesis. Plans-attempt Y [] _ _ λ net _. Plans-pure Y _

  module _ (config : Configuration Y) (parts : PartialComponents Y) (net : NetworkParts Y) where
    start_offchain_workers-Plans :
        Plans Y
          (if config.offchain_enabled
            then task false false "offchain-workers-runner" (some "offchain-worker") ∷ []
            else [])
          (start_offchain_workers Y H config parts net)
    unfolding start_offchain_workers
    start_offchain_workers-Plans =
        Plans-if Y _ _ _ _ (Plans-attempt Y _ _ _ λ _ _. Plans-spawn Y _ _ _) (Plans-pure Y tt)

    start_rpc-Plans : Plans Y (service_tasks ∷ []) (start_rpc Y H config parts net)
    unfolding start_rpc
    start_rpc-Plans = Plans-start_service_tasks Y _

    start_authoring-Plans :
        Plans Y
          (if is_authority config.role
            then task true true "aura" (some "block-authoring") ∷ []
            else [])
          (start_authoring Y H config parts net)
    unfolding start_authoring
    start_authoring-Plans =
        Plans-if Y _ _ _ _
          (Plans-attempt Y _ _ _
            λ duration _. Plans-attempt Y _ _ _ λ aura _. Plans-spawn_essential_blocking Y _ _ aura)
          (Plans-pure Y tt)

    start_voter-Plans :
        Plans Y
          (if not config.disable_grandpa then task true true "grandpa-voter" none ∷ [] else [])
          (start_voter Y H config parts net)
    unfolding start_voter
    start_voter-Plans =
        Plans-if Y _ _ _ _
          (Plans-attempt Y _ _ _ λ voter _. Plans-spawn_essential_blocking Y _ _ voter)
          (Plans-pure Y tt)

  new_full-Plans : (config : Configuration Y) → Plans Y (node_plan config) (new_full Y H config)
  unfolding new_full
  new_full-Plans config = Plans-bind Y _ _ _ _ (new_partial-Plans config) λ parts.
      Plans-bind Y [] _ _ _ (start_network-Plans config parts) λ net.
        Plans-bind Y _ _ _ _ (start_offchain_workers-Plans config parts net) λ _.
          Plans-bind Y _ _ _ _ (start_rpc-Plans config parts net) λ _.
            Plans-bind Y _ _ _ _ (start_authoring-Plans config parts net) λ _.
              Plans-last Y _ _ _ (start_voter-Plans config parts net)
                λ _. Plans-pure Y parts.task_manager

  -- Whatever the crates of Substrate answer, a call of `new_full` that returns a task manager has
  -- started exactly the tasks of the plan, in its order; one that stops with an error or a panic
  -- has started the first ones of them and no other, apart from those tasks of the service that a
  -- `spawn_tasks` which fails may have started itself.
  pub new_full-tasks :
      (config : Configuration Y)
      → let (r, log) = new_full Y H config [] in
        ((manager : Y.TaskManager) → r ≡ ok manager → kinds Y log ≡ node_plan config)
        × ((e : Stopped Y.Error)
            → r ≡ err e
            → (rest : List TaskKind) × (kinds Y log ++ rest ≡ node_plan config))
  new_full-tasks config = Adds-outcomes Y (node_plan config) _ _ ((new_full-Plans config).from [])
