-- ===== src/Node/Service/Full.antt =====
-- node/src/service.rs: `new_full`, which builds the node that runs, stage by stage in the order of
-- the source.
use nexusguild.Base.{
  true, false, not, if◌then◌else◌, none, some, map_err, to_option, flatten_option, [], ◌>>=◌, ◌>>◌,
  pure,
}
use nexusguild.Node.Service.Host.{
  Types, Host, Configuration, BuildNetworkParams, OffchainWorkerOptions, SpawnTasksParams,
  StartAuraParams, GrandpaParams,
}
use nexusguild.Node.Service.Log.{
  Building, attempt, expect, spawn, spawn_essential_blocking, start_service_tasks,
}
use nexusguild.Node.Service.Partial.{
  PartialComponents, grandpa_justification_period, is_authority, handle_of, author_providers,
  new_partial,
}
use nexusguild.Node.Rpc.{FullDeps, create_full}

module _ (Y : Types) where
  -- What `build_network` and the preparation of the GRANDPA protocol give.
  pub record NetworkParts : Type 0 where
    pub network : Y.Network
    pub system_rpc_tx : Y.SystemRpcTx
    pub tx_handler_controller : Y.TxHandlerController
    pub sync_service : Y.SyncService
    pub protocol_name : Y.ProtocolName
    pub notification_service : Y.NotificationService

module _ (Y : Types) (H : Host Y) where
  unfoldable pub start_network : Configuration Y → PartialComponents Y → Building Y (NetworkParts Y)
  start_network config parts = do
    let net_config = H.network_config config.settings config.prometheus_registry
    let metrics = H.notification_metrics config.prometheus_registry
    let peer_store_handle = H.peer_store_handle net_config
    genesis ←
        expect Y (flatten_option (to_option (H.block_hash parts.client 0)))
          "Genesis block exists; qed"
    let protocol_name = H.protocol_standard_name genesis config.settings
    let protocol = H.grandpa_peers_set_config protocol_name metrics peer_store_handle
    let authorities = H.shared_authority_set parts.grandpa_link
    let warp_sync = H.warp_sync_provider parts.backend authorities H.default_hard_forks
    let params : BuildNetworkParams Y = record {
      config = config;
      net_config = H.add_notification_protocol protocol.0 net_config;
      client = parts.client;
      transaction_pool = parts.transaction_pool;
      spawn_handle = parts.task_manager;
      import_queue = parts.import_queue;
      block_announce_validator_builder = none;
      warp_sync_config = some (H.with_provider warp_sync);
      block_relay = none;
      metrics = metrics;
    }
    (network, system_rpc_tx, tx_handler_controller, sync_service) ←
        attempt Y (H.build_network params)
    pure (record {
      network = network;
      system_rpc_tx = system_rpc_tx;
      tx_handler_controller = tx_handler_controller;
      sync_service = sync_service;
      protocol_name = protocol_name;
      notification_service = protocol.1;
    })

  run_offchain_workers :
      Configuration Y → PartialComponents Y → NetworkParts Y → Building Y (Unit {0})
  run_offchain_workers config parts net = do
    let options : OffchainWorkerOptions Y = record {
      runtime_api_provider = parts.client;
      is_validator = is_authority config.role;
      keystore = some (H.keystore parts.keystore_container);
      offchain_db = H.offchain_storage parts.backend;
      transaction_pool = some (H.offchain_pool_factory parts.transaction_pool);
      network_provider = net.network;
      enable_http_requests = true;
      custom_extensions = λ _. [];
    }
    workers ← attempt Y (H.offchain_workers options)
    spawn Y "offchain-workers-runner" (some "offchain-worker")
        (H.offchain_run workers parts.client parts.task_manager)

  unfoldable pub start_offchain_workers :
      Configuration Y → PartialComponents Y → NetworkParts Y → Building Y (Unit {0})
  unfolding run_offchain_workers
  start_offchain_workers config parts net =
      if config.offchain_enabled then run_offchain_workers config parts net else pure tt

  unfoldable pub start_rpc :
      Configuration Y → PartialComponents Y → NetworkParts Y → Building Y (Unit {0})
  start_rpc config parts net =
      let deps : FullDeps Y = record { client = parts.client; pool = parts.transaction_pool } in
      let params : SpawnTasksParams Y = record {
        network = net.network;
        client = parts.client;
        keystore = H.keystore parts.keystore_container;
        task_manager = parts.task_manager;
        transaction_pool = parts.transaction_pool;
        rpc_builder = map_err H.rpc_error_into (create_full Y H deps);
        backend = parts.backend;
        system_rpc_tx = net.system_rpc_tx;
        tx_handler_controller = net.tx_handler_controller;
        sync_service = net.sync_service;
        config = config;
        telemetry = parts.telemetry;
      } in
      start_service_tasks Y (H.spawn_tasks params)

  run_aura : Configuration Y → PartialComponents Y → NetworkParts Y → Building Y (Unit {0})
  run_aura config parts net = do
    let proposer_factory =
        H.proposer_factory parts.task_manager parts.client parts.transaction_pool
          config.prometheus_registry (handle_of Y H parts.telemetry)
    slot_duration ← attempt Y (H.slot_duration parts.client)
    let params : StartAuraParams Y = record {
      slot_duration = slot_duration;
      client = parts.client;
      select_chain = parts.select_chain;
      block_import = parts.block_import;
      proposer_factory = proposer_factory;
      create_inherent_data_providers = author_providers Y H slot_duration;
      force_authoring = config.force_authoring;
      backoff_authoring_blocks = none;
      keystore = H.keystore parts.keystore_container;
      sync_oracle = net.sync_service;
      justification_sync_link = net.sync_service;
      block_proposal_slot_portion = (2, 3);
      max_block_proposal_slot_portion = none;
      telemetry = handle_of Y H parts.telemetry;
      compatibility_mode = H.default_compatibility_mode;
    }
    aura ← attempt Y (H.start_aura params)
    spawn_essential_blocking Y "aura" (some "block-authoring") aura

  unfoldable pub start_authoring :
      Configuration Y → PartialComponents Y → NetworkParts Y → Building Y (Unit {0})
  unfolding run_aura
  start_authoring config parts net =
      if is_authority config.role then run_aura config parts net else pure tt

  -- The parameters of the GRANDPA voter. Only an authority hands it the keystore.
  unfoldable pub grandpa_params :
      Configuration Y → PartialComponents Y → NetworkParts Y → GrandpaParams Y
  grandpa_params config parts net = record {
    config = record {
      gossip_duration = 333;
      justification_generation_period = grandpa_justification_period;
      name = some config.node_name;
      observer_enabled = false;
      keystore =
          if is_authority config.role then some (H.keystore parts.keystore_container) else none;
      local_role = config.role;
      telemetry = handle_of Y H parts.telemetry;
      protocol_name = net.protocol_name;
    };
    link = parts.grandpa_link;
    network = net.network;
    sync = net.sync_service;
    notification_service = net.notification_service;
    voting_rule = H.default_voting_rule;
    prometheus_registry = config.prometheus_registry;
    shared_voter_state = H.empty_voter_state;
    telemetry = handle_of Y H parts.telemetry;
    offchain_tx_pool_factory = H.offchain_pool_factory parts.transaction_pool;
  }

  run_grandpa : Configuration Y → PartialComponents Y → NetworkParts Y → Building Y (Unit {0})
  run_grandpa config parts net = do
    voter ← attempt Y (H.run_grandpa_voter (grandpa_params config parts net))
    spawn_essential_blocking Y "grandpa-voter" none voter

  unfoldable pub start_voter :
      Configuration Y → PartialComponents Y → NetworkParts Y → Building Y (Unit {0})
  unfolding run_grandpa
  start_voter config parts net =
      if not config.disable_grandpa then run_grandpa config parts net else pure tt

  unfoldable pub new_full : Configuration Y → Building Y Y.TaskManager
  new_full config = do
    parts ← new_partial Y H config
    net ← start_network config parts
    start_offchain_workers config parts net
    start_rpc config parts net
    start_authoring config parts net
    start_voter config parts net
    pure parts.task_manager
