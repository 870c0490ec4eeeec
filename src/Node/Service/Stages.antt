-- ===== src/Node/Service/Stages.antt =====
-- node/src/service.rs: what the stages of `new_full` hand to the crates of Substrate, and the tasks
-- that they spawn with the answers.
use nexusguild.Base.{
  not-true, not-false, true, false, not, if◌then◌else◌, none, some, ok, map_err, to_option,
  flatten_option, ◌≡◌, refl, List, [], ◌∷◌,
}
use nexusguild.Node.Rpc.{create_full}
use nexusguild.Node.Service.Host.{
  Types, Host, Configuration, BuildNetworkParams, OffchainWorkerOptions, SpawnTasksParams,
  StartAuraParams, GrandpaParams,
}
use nexusguild.Node.Service.Log.{Entry}
use nexusguild.Node.Service.Partial.{
  PartialComponents, is_authority, author_providers, grandpa_justification_period,
}
use nexusguild.Node.Service.Full.{
  NetworkParts, grandpa_params, start_network, start_offchain_workers, start_rpc, start_authoring,
  start_voter,
}
use nexusguild.Node.Service.Logs.{
  Logs, entry, essential_entry, service_entry, Logs-attempt, Logs-expect, Logs-pure, Logs-spawn,
  Logs-spawn_essential_blocking, Logs-start_service_tasks, Logs-if,
}

module _ (Y : Types) (H : Host Y) (config : Configuration Y) (p : PartialComponents Y) where
  -- The network works on the client, the pool and the import queue of the parts, and carries the
  -- protocol of GRANDPA, whose name is made from the hash of the genesis block.
  pub record IsConnected (net : NetworkParts Y) : Type 0 where
    pub genesis : Y.Hash
    pub genesis_found : flatten_option (to_option (H.block_hash p.client 0)) ≡ some genesis
    pub named : net.protocol_name ≡ H.protocol_standard_name genesis config.settings
    pub params : BuildNetworkParams Y
    pub built :
        H.build_network params
        ≡ ok (net.network, net.system_rpc_tx, net.tx_handler_controller, net.sync_service)
    pub over_client : params.client ≡ p.client
    pub over_pool : params.transaction_pool ≡ p.transaction_pool
    pub over_queue : params.import_queue ≡ p.import_queue
    pub over_manager : params.spawn_handle ≡ p.task_manager
    pub warped :
        params.warp_sync_config
        ≡ some (
            H.with_provider (
              H.warp_sync_provider p.backend
                (H.shared_authority_set p.grandpa_link)
                H.default_hard_forks))
    -- The voter is notified by the protocol that the network carries.
    pub plain : Y.NetConfig
    pub carried :
        params.net_config
        ≡ H.add_notification_protocol
            (H.grandpa_peers_set_config net.protocol_name params.metrics
              (H.peer_store_handle plain)).0
            plain
    pub notified :
        net.notification_service
        ≡ (H.grandpa_peers_set_config net.protocol_name params.metrics
            (H.peer_store_handle plain)).1

  pub start_network-Logs :
      Logs Y (λ net log. IsConnected net × (log ≡ [])) (start_network Y H config p)
  unfolding start_network
  start_network-Logs = Logs-expect Y _ _ _ _ λ genesis found. Logs-attempt Y _ _ _ λ net built.
      Logs-pure Y _ _ (
        record {
          genesis = genesis;
          genesis_found = found;
          named = refl;
          params = _;
          built = built;
          over_client = refl;
          over_pool = refl;
          over_queue = refl;
          over_manager = refl;
          warped = refl;
          plain = _;
          carried = refl;
          notified = refl;
        },
        refl,
      )

module _ (Y : Types) (H : Host Y) (config : Configuration Y) (p : PartialComponents Y)
    (net : NetworkParts Y) where
  -- The offchain workers run where they are enabled, on the client, the storage of the backend, the
  -- pool and the network, with the keystore, and spawn their own tasks on the same manager.
  pub data OffchainRun (log : List (Entry Y)) : Type 0 where
    no_workers : config.offchain_enabled ≡ false → log ≡ [] → OffchainRun log
    workers :
        (o : OffchainWorkerOptions Y) (w : Y.OffchainWorkers)
        → config.offchain_enabled ≡ true
        → H.offchain_workers o ≡ ok w
        → o.is_validator ≡ is_authority config.role
        → o.keystore ≡ some (H.keystore p.keystore_container)
        → o.runtime_api_provider ≡ p.client
        → o.offchain_db ≡ H.offchain_storage p.backend
        → o.transaction_pool ≡ some (H.offchain_pool_factory p.transaction_pool)
        → o.network_provider ≡ net.network
        → log
          ≡ entry Y "offchain-workers-runner"
              (some "offchain-worker")
              (H.offchain_run w p.client p.task_manager)
            ∷ []
        → OffchainRun log

  -- The tasks of the service serve the RPC over the client and the pool.
  pub record ServiceRun (log : List (Entry Y)) : Type 0 where
    pub params : SpawnTasksParams Y
    pub started : H.spawn_tasks params ≡ ok tt
    pub served :
        params.rpc_builder
        ≡ map_err H.rpc_error_into
            (create_full Y H (record { client = p.client; pool = p.transaction_pool }))
    pub over_client : params.client ≡ p.client
    pub over_pool : params.transaction_pool ≡ p.transaction_pool
    pub over_manager : params.task_manager ≡ p.task_manager
    pub with_keys : params.keystore ≡ H.keystore p.keystore_container
    pub over_network : params.network ≡ net.network
    pub over_sync : params.sync_service ≡ net.sync_service
    pub logged : log ≡ service_entry Y ∷ []

  -- An authority runs an author: with the slot duration that the client gives, also for the slots
  -- of its blocks, of which a proposal takes two thirds, through the block import of GRANDPA, on
  -- the chain, with the keystore, and in step with the network.
  pub data AuthorRun (log : List (Entry Y)) : Type 0 where
    no_author : is_authority config.role ≡ false → log ≡ [] → AuthorRun log
    author :
        (q : StartAuraParams Y) (body : Y.Task)
        → is_authority config.role ≡ true
        → H.start_aura q ≡ ok body
        → (H.slot_duration p.client ≡ ok q.slot_duration)
          × (q.create_inherent_data_providers ≡ author_providers Y H q.slot_duration)
        → q.block_import ≡ p.block_import
        → q.client ≡ p.client
        → q.select_chain ≡ p.select_chain
        → q.keystore ≡ H.keystore p.keystore_container
        → q.force_authoring ≡ config.force_authoring
        → q.block_proposal_slot_portion ≡ (2, 3)
        → (q.sync_oracle ≡ net.sync_service) × (q.justification_sync_link ≡ net.sync_service)
        → log ≡ essential_entry Y "aura" (some "block-authoring") body ∷ []
        → AuthorRun log

  -- Unless GRANDPA is disabled a voter runs: on the link of the block import, on the network and
  -- its protocol, with the justification period of the block import, and with the keystore only for
  -- an authority.
  pub data VoterRun (log : List (Entry Y)) : Type 0 where
    no_voter : config.disable_grandpa ≡ true → log ≡ [] → VoterRun log
    voter :
        (q : GrandpaParams Y) (body : Y.Task)
        → config.disable_grandpa ≡ false
        → H.run_grandpa_voter q ≡ ok body
        → q.link ≡ p.grandpa_link
        → q.network ≡ net.network
        → q.sync ≡ net.sync_service
        → (q.config.protocol_name ≡ net.protocol_name)
          × (q.notification_service ≡ net.notification_service)
        → q.config.keystore
          ≡ (if is_authority config.role then some (H.keystore p.keystore_container) else none)
        → q.config.justification_generation_period ≡ grandpa_justification_period
        → q.config.local_role ≡ config.role
        → q.offchain_tx_pool_factory ≡ H.offchain_pool_factory p.transaction_pool
        → log ≡ essential_entry Y "grandpa-voter" none body ∷ []
        → VoterRun log

module _ (Y : Types) (H : Host Y) (config : Configuration Y) (p : PartialComponents Y)
    (net : NetworkParts Y) where
  pub start_offchain_workers-Logs :
      Logs Y (λ _ log. OffchainRun Y H config p net log) (start_offchain_workers Y H config p net)
  unfolding start_offchain_workers
  start_offchain_workers-Logs =
      Logs-if Y _ _ _ _
        (λ on.
          Logs-attempt Y _ _ _
            λ w made. Logs-spawn Y _ _ _ _ (workers _ w on made refl refl refl refl refl refl refl))
        (λ off. Logs-pure Y _ tt (no_workers off refl))

  pub start_rpc-Logs :
      Logs Y (λ _ log. ServiceRun Y H config p net log) (start_rpc Y H config p net)
  unfolding start_rpc
  start_rpc-Logs = Logs-start_service_tasks Y _ _ λ made. record {
    params = _;
    started = made;
    served = refl;
    over_client = refl;
    over_pool = refl;
    over_manager = refl;
    with_keys = refl;
    over_network = refl;
    over_sync = refl;
    logged = refl;
  }

  pub start_authoring-Logs :
      Logs Y (λ _ log. AuthorRun Y H config p net log) (start_authoring Y H config p net)
  unfolding start_authoring
  start_authoring-Logs =
      Logs-if Y _ _ _ _
        (λ on. Logs-attempt Y _ _ _ λ duration read. Logs-attempt Y _ _ _ λ body made.
          Logs-spawn_essential_blocking Y _ _ _ body
            (author _ body on made (read, refl) refl refl refl refl refl refl (refl, refl) refl))
        (λ off. Logs-pure Y _ tt (no_author off refl))

  pub start_voter-Logs :
      Logs Y (λ _ log. VoterRun Y H config p net log) (start_voter Y H config p net)
  unfolding start_voter grandpa_params
  start_voter-Logs =
      Logs-if Y _ (not config.disable_grandpa) _ _
        (λ on. Logs-attempt Y _ _ _ λ body made.
          Logs-spawn_essential_blocking Y _ _ _ body
            (voter _ body (not-true on) made refl refl refl (refl, refl) refl refl refl refl refl))
        (λ off. Logs-pure Y _ tt (no_voter (not-false off) refl))
