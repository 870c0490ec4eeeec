-- ===== src/Node/Service/Runs.antt =====
-- node/src/service.rs: a run of `new_full` that ends, from its configuration to the tasks it
-- spawned.
use nexusguild.Base.{ok, ◌≡◌, refl, List, [], ◌++◌, append-nil}
use nexusguild.Node.Service.Host.{Types, Host, Configuration}
use nexusguild.Node.Service.Log.{Entry}
use nexusguild.Node.Service.Partial.{PartialComponents}
use nexusguild.Node.Service.Full.{NetworkParts, new_full}
use nexusguild.Node.Service.Logs.{Logs, Logs-bind, Logs-pure}
use nexusguild.Node.Service.Gives.{IsWired, TelemetryRun, Partial, new_partial-Logs}
use nexusguild.Node.Service.Stages.{
  IsConnected, OffchainRun, ServiceRun, AuthorRun, VoterRun, start_network-Logs,
  start_offchain_workers-Logs, start_rpc-Logs, start_authoring-Logs, start_voter-Logs,
}

module _ (Y : Types) (H : Host Y) (config : Configuration Y) where
  -- One set of parts and one network serve all tasks, and the log is that of the telemetry, the
  -- offchain workers, the service, the author and the voter, in this order.
  pub record IsRun (manager : Y.TaskManager) (log : List (Entry Y)) : Type 0 where
    pub parts : PartialComponents Y
    pub net : NetworkParts Y
    pub managed : manager ≡ parts.task_manager
    pub wired : IsWired Y H config parts
    pub connected : IsConnected Y H config parts net
    pub telemetry_log : List (Entry Y)
    pub offchain_log : List (Entry Y)
    pub service_log : List (Entry Y)
    pub author_log : List (Entry Y)
    pub voter_log : List (Entry Y)
    pub whole : log ≡ telemetry_log ++ (offchain_log ++ (service_log ++ (author_log ++ voter_log)))
    pub reported : TelemetryRun Y H config parts.telemetry telemetry_log
    pub offchain : OffchainRun Y H config parts net offchain_log
    pub served : ServiceRun Y H config parts net service_log
    pub authored : AuthorRun Y H config parts net author_log
    pub voted : VoterRun Y H config parts net voter_log

module _ (Y : Types) (H : Host Y) (config : Configuration Y) where
  new_full-Logs : Logs Y (IsRun Y H config) (new_full Y H config)
  unfolding new_full
  new_full-Logs =
      Logs-bind Y _ (Partial Y H config) _ _ (new_partial-Logs Y H config) λ parts l0 (wired, told).
        Logs-bind Y _ _ _ _ (start_network-Logs Y H config parts) λ net l1 (connected, empty).
          Logs-bind Y _ _ _ _ (start_offchain_workers-Logs Y H config parts net) λ _ l2 offchain.
            Logs-bind Y _ _ _ _ (start_rpc-Logs Y H config parts net) λ _ l3 served.
              Logs-bind Y _ _ _ _ (start_authoring-Logs Y H config parts net) λ _ l4 authored.
                Logs-bind Y _ _ _ _ (start_voter-Logs Y H config parts net) λ _ l5 voted.
                  Logs-pure Y _ parts.task_manager (record {
                    parts = parts;
                    net = net;
                    managed = refl;
                    wired = wired;
                    connected = connected;
                    telemetry_log = l0;
                    offchain_log = l2;
                    service_log = l3;
                    author_log = l4;
                    voter_log = l5;
                    whole = rw (empty, append-nil l5);
                    reported = told;
                    offchain = offchain;
                    served = served;
                    authored = authored;
                    voted = voted;
                  })

  -- A run of `new_full` that returns a task manager is one of an assembled node: there is one set
  -- of parts that belong together, with that task manager, and one network over them that carries
  -- the protocol of GRANDPA; and the tasks spawned, in order, are the worker of the telemetry, the
  -- offchain workers, the tasks of the service, the author and the voter, each under its condition
  -- of the configuration, with the name and kind of the plan, and with the body that the crates of
  -- Substrate gave for those parts and that network. The author imports through the block import of
  -- GRANDPA, whose link the voter has, and only an authority's voter has the keystore.
  pub new_full-IsRun :
      (manager : Y.TaskManager)
      → (new_full Y H config []).0 ≡ ok manager
      → IsRun Y H config manager (new_full Y H config []).1
  new_full-IsRun manager h =
      let (added, whole, run) = new_full-Logs.from [] manager h in rw whole run
