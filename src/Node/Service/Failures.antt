-- ===== src/Node/Service/Failures.antt =====
-- node/src/service.rs: why `new_full` stops.
use nexusguild.Base.{
  not-true, true, false, not, Option, none, some, err, to_option, flatten_option, ◌≡◌, refl, arith,
  List, ok-ne-err,
}
use nexusguild.Node.Service.Host.{
  Types, Host, Configuration, ImportQueueParams, BuildNetworkParams, OffchainWorkerOptions,
  SpawnTasksParams, StartAuraParams, GrandpaParams,
}
use nexusguild.Node.Service.Log.{Stopped, failed, panic, Entry}
use nexusguild.Node.Service.Partial.{
  PartialComponents, is_authority, start_telemetry, spawn_telemetry, new_partial,
}
use nexusguild.Node.Service.Full.{
  NetworkParts, start_network, start_offchain_workers, start_rpc, start_authoring, start_voter,
  new_full,
}
use nexusguild.Node.Service.Stops.{
  Stops, Stops-bind, Stops-attempt, Stops-expect, Stops-pure, Stops-spawn,
  Stops-spawn_essential_blocking, Stops-start_service_tasks, Stops-if,
}

-- The calls that may fail, each under the condition of the configuration under which it is made.
module _ (Y : Types) (H : Host Y) (config : Configuration Y) where
  pub data Failure : Stopped Y.Error → Type 0 where
    telemetry_failed :
        (endpoints : Y.Endpoints) (e : Y.Error)
        → config.telemetry_endpoints ≡ some endpoints
        → H.is_empty endpoints ≡ false
        → H.telemetry_worker 16 ≡ err e
        → Failure (failed e)
    parts_failed :
        (handle : Option Y.TelemetryHandle) (e : Y.Error)
        → H.new_full_parts config handle (H.new_wasm_executor config.settings) ≡ err e
        → Failure (failed e)
    block_import_failed :
        (client : Y.Client) (chain : Y.SelectChain) (handle : Option Y.TelemetryHandle)
        (e : Y.Error)
        → H.grandpa_block_import client 512 client chain handle ≡ err e
        → Failure (failed e)
    import_queue_failed :
        (p : ImportQueueParams Y) (e : Y.Error) → H.import_queue p ≡ err e → Failure (failed e)
    no_genesis :
        (client : Y.Client)
        → flatten_option (to_option (H.block_hash client 0)) ≡ none
        → Failure (panic "Genesis block exists; qed")
    network_failed :
        (p : BuildNetworkParams Y) (e : Y.Error) → H.build_network p ≡ err e → Failure (failed e)
    offchain_failed :
        (o : OffchainWorkerOptions Y) (e : Y.Error)
        → config.offchain_enabled ≡ true
        → H.offchain_workers o ≡ err e
        → Failure (failed e)
    tasks_failed :
        (p : SpawnTasksParams Y) (e : Y.Error) → H.spawn_tasks p ≡ err e → Failure (failed e)
    slot_duration_failed :
        (client : Y.Client) (e : Y.Error)
        → is_authority config.role ≡ true
        → H.slot_duration client ≡ err e
        → Failure (failed e)
    aura_failed :
        (p : StartAuraParams Y) (e : Y.Error)
        → is_authority config.role ≡ true
        → H.start_aura p ≡ err e
        → Failure (failed e)
    voter_failed :
        (p : GrandpaParams Y) (e : Y.Error)
        → config.disable_grandpa ≡ false
        → H.run_grandpa_voter p ≡ err e
        → Failure (failed e)

module _ (Y : Types) (H : Host Y) (config : Configuration Y) where
  telemetry-Failure :
      (endpoints : Option Y.Endpoints) (e : Y.Error)
      → config.telemetry_endpoints ≡ endpoints
      → start_telemetry Y H endpoints ≡ err e
      → Failure Y H config (failed e)
  unfolding start_telemetry
  telemetry-Failure none e h q = absurd (ok-ne-err q)
  telemetry-Failure (some endpoints) e h q =
      telemetry_failed endpoints e h (ground arith) (ground arith)

  spawn_telemetry-Stops :
      (o : Option (Y.TelemetryWorker × Y.Telemetry))
      → Stops Y (Failure Y H config) (spawn_telemetry Y H o)
  unfolding spawn_telemetry
  spawn_telemetry-Stops none = Stops-pure Y _ none
  spawn_telemetry-Stops (some (worker, t)) =
      Stops-bind Y _ _ _ (Stops-spawn Y _ _ _ _) λ _. Stops-pure Y _ (some t)

  new_partial-Stops : Stops Y (Failure Y H config) (new_partial Y H config)
  unfolding new_partial
  new_partial-Stops =
      Stops-attempt Y _ _ _ (λ e. telemetry-Failure config.telemetry_endpoints e refl)
        λ started.
          Stops-attempt Y _ _ _ (λ e q. parts_failed _ e q)
            λ p. Stops-bind Y _ _ _ (spawn_telemetry-Stops started) λ kept.
              Stops-attempt Y _ _ _ (λ e q. block_import_failed _ _ _ e q)
                λ grandpa.
                  Stops-attempt Y _ _ _ (λ e q. import_queue_failed _ e q) λ queue. Stops-pure Y _ _

  module _ (p : PartialComponents Y) where
    start_network-Stops : Stops Y (Failure Y H config) (start_network Y H config p)
    unfolding start_network
    start_network-Stops =
        Stops-expect Y _ _ _ _ (λ q. no_genesis p.client q)
          λ genesis. Stops-attempt Y _ _ _ (λ e q. network_failed _ e q) λ net. Stops-pure Y _ _

    module _ (net : NetworkParts Y) where
      start_offchain_workers-Stops :
          Stops Y (Failure Y H config) (start_offchain_workers Y H config p net)
      unfolding start_offchain_workers
      start_offchain_workers-Stops =
          Stops-if Y _ _ _ _
            (λ on.
              Stops-attempt Y _ _ _ (λ e q. offchain_failed _ e on q)
                λ workers. Stops-spawn Y _ _ _ _)
            (Stops-pure Y _ tt)

      start_rpc-Stops : Stops Y (Failure Y H config) (start_rpc Y H config p net)
      unfolding start_rpc
      start_rpc-Stops = Stops-start_service_tasks Y _ _ λ e q. tasks_failed _ e q

      start_authoring-Stops : Stops Y (Failure Y H config) (start_authoring Y H config p net)
      unfolding start_authoring
      start_authoring-Stops =
          Stops-if Y _ _ _ _
            (λ on.
              Stops-attempt Y _ _ _ (λ e q. slot_duration_failed _ e on q)
                λ duration.
                  Stops-attempt Y _ _ _ (λ e q. aura_failed _ e on q)
                    λ a. Stops-spawn_essential_blocking Y _ _ _ _)
            (Stops-pure Y _ tt)

      start_voter-Stops : Stops Y (Failure Y H config) (start_voter Y H config p net)
      unfolding start_voter
      start_voter-Stops =
          Stops-if Y _ (not config.disable_grandpa) _ _
            (λ on.
              Stops-attempt Y _ _ _ (λ e q. voter_failed _ e (not-true on) q)
                λ v. Stops-spawn_essential_blocking Y _ _ _ _)
            (Stops-pure Y _ tt)

  new_full-Stops : Stops Y (Failure Y H config) (new_full Y H config)
  unfolding new_full
  new_full-Stops = Stops-bind Y _ _ _ new_partial-Stops λ p.
      Stops-bind Y _ _ _ (start_network-Stops p) λ net.
        Stops-bind Y _ _ _ (start_offchain_workers-Stops p net) λ _.
          Stops-bind Y _ _ _ (start_rpc-Stops p net) λ _.
            Stops-bind Y _ _ _ (start_authoring-Stops p net)
              λ _. Stops-bind Y _ _ _ (start_voter-Stops p net) λ _. Stops-pure Y _ _

  -- An error or a panic with which `new_full` stops comes from one of the calls that may fail, made
  -- under its condition: the worker of the telemetry, only for endpoints that are not empty; the
  -- parts, the block import, the import queue, the network and the tasks of the service; the
  -- offchain workers, only where they are enabled; the slot duration and the author, only for an
  -- authority; and the voter, only unless GRANDPA is disabled. It is a panic only where the client
  -- has no hash for block 0.
  pub new_full-Failure :
      (log : List (Entry Y)) (e : Stopped Y.Error)
      → (new_full Y H config log).0 ≡ err e
      → Failure Y H config e
  new_full-Failure log e q = new_full-Stops.from log e q
