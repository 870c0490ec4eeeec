-- ===== src/Node/Service/Host.antt =====
-- node/src/service.rs: what the service takes from the crates of Substrate. The types are abstract,
-- and each operation stands for the call of the same name; where the source writes `?`, the
-- conversion of the error into `ServiceError` is part of the operation.
use nexusguild.Base.{ℕ, String, Bool, Option, Result, List}
pub use nexusguild.Node.Service.Crates.{Types}

-- `Role` of `sc_service`; the source asks it only `is_authority()`.
pub data Role : Type 0 where
  full authority : Role

-- `NetworkBackendType` of `sc_network`.
pub data NetworkBackendType : Type 0 where
  libp2p litep2p : NetworkBackendType

module _ (Y : Types) where
  open Y use {
    Error, Endpoints, Settings, Registry, Client, Backend, Keystore, SelectChain, Pool, BlockImport,
    LinkHalf, ImportQueue, Network, SyncService, Slot, Timestamp, Hash, TelemetryHandle,
    TaskManager,
  }

  -- The fields of `Configuration` that the service reads; `settings` holds the others, which it
  -- passes on.
  pub record Configuration : Type 0 where
    pub telemetry_endpoints : Option Endpoints
    pub role : Role
    pub force_authoring : Bool
    pub disable_grandpa : Bool
    pub offchain_enabled : Bool
    pub node_name : String
    pub network_backend : Option NetworkBackendType
    pub prometheus_registry : Option Registry
    pub settings : Settings

  -- `ImportQueueParams`
  pub record ImportQueueParams : Type 0 where
    pub block_import : BlockImport
    pub justification_import : Option BlockImport
    pub client : Client
    pub create_inherent_data_providers : Hash → Timestamp → Result Error (Slot × Timestamp)
    pub spawner : TaskManager
    pub registry : Option Registry
    pub check_for_equivocation : Y.CheckForEquivocation
    pub telemetry : Option TelemetryHandle
    pub compatibility_mode : Y.CompatibilityMode

  -- `BuildNetworkParams`
  pub record BuildNetworkParams : Type 0 where
    pub config : Configuration
    pub net_config : Y.NetConfig
    pub client : Client
    pub transaction_pool : Pool
    pub spawn_handle : TaskManager
    pub import_queue : ImportQueue
    pub block_announce_validator_builder : Option Y.AnnounceValidatorBuilder
    pub warp_sync_config : Option Y.WarpSyncConfig
    pub block_relay : Option Y.BlockRelay
    pub metrics : Y.Metrics

  -- `OffchainWorkerOptions`
  pub record OffchainWorkerOptions : Type 0 where
    pub runtime_api_provider : Client
    pub is_validator : Bool
    pub keystore : Option Keystore
    pub offchain_db : Option Y.OffchainStorage
    pub transaction_pool : Option Y.OffchainPoolFactory
    pub network_provider : Network
    pub enable_http_requests : Bool
    pub custom_extensions : Hash → List Y.OffchainExtension

  -- `SpawnTasksParams`
  pub record SpawnTasksParams : Type 0 where
    pub network : Network
    pub client : Client
    pub keystore : Keystore
    pub task_manager : TaskManager
    pub transaction_pool : Pool
    pub rpc_builder : Result Error Y.RpcModule
    pub backend : Backend
    pub system_rpc_tx : Y.SystemRpcTx
    pub tx_handler_controller : Y.TxHandlerController
    pub sync_service : SyncService
    pub config : Configuration
    pub telemetry : Option Y.Telemetry

  -- `StartAuraParams`
  pub record StartAuraParams : Type 0 where
    pub slot_duration : Y.SlotDuration
    pub client : Client
    pub select_chain : SelectChain
    pub block_import : BlockImport
    pub proposer_factory : Y.ProposerFactory
    pub create_inherent_data_providers : Hash → Timestamp → Result Error (Slot × Timestamp)
    pub force_authoring : Bool
    pub backoff_authoring_blocks : Option (Unit {0})
    pub keystore : Keystore
    pub sync_oracle : SyncService
    pub justification_sync_link : SyncService
    -- `SlotProportion`, as a numerator and a denominator.
    pub block_proposal_slot_portion : ℕ × ℕ
    pub max_block_proposal_slot_portion : Option (ℕ × ℕ)
    pub telemetry : Option TelemetryHandle
    pub compatibility_mode : Y.CompatibilityMode

  -- `Config` of `sc_consensus_grandpa`; the duration is in milliseconds.
  pub record GrandpaConfig : Type 0 where
    pub gossip_duration : ℕ
    pub justification_generation_period : ℕ
    pub name : Option String
    pub observer_enabled : Bool
    pub keystore : Option Keystore
    pub local_role : Role
    pub telemetry : Option TelemetryHandle
    pub protocol_name : Y.ProtocolName

  -- `GrandpaParams`
  pub record GrandpaParams : Type 0 where
    pub config : GrandpaConfig
    pub link : LinkHalf
    pub network : Network
    pub sync : SyncService
    pub notification_service : Y.NotificationService
    pub voting_rule : Y.VotingRule
    pub prometheus_registry : Option Registry
    pub shared_voter_state : Y.VoterState
    pub telemetry : Option TelemetryHandle
    pub offchain_tx_pool_factory : Y.OffchainPoolFactory

  pub record Host : Type 0 where
    pub is_empty : Endpoints → Bool
    pub telemetry_worker : ℕ → Result Error Y.TelemetryWorker
    pub new_telemetry : Y.TelemetryWorker → Endpoints → Y.Telemetry
    pub telemetry_handle : Y.Telemetry → TelemetryHandle
    pub telemetry_run : Y.TelemetryWorker → Y.Task
    pub new_wasm_executor : Settings → Y.Executor
    pub new_full_parts :
        Configuration
        → Option TelemetryHandle
        → Y.Executor
        → Result Error (Client × Backend × Y.KeystoreContainer × TaskManager)
    pub keystore : Y.KeystoreContainer → Keystore
    pub longest_chain : Backend → SelectChain
    pub build_pool : TaskManager → Client → Bool → Settings → Option Registry → Pool
    pub grandpa_block_import :
        Client
        → ℕ
        → Client
        → SelectChain
        → Option TelemetryHandle
        → Result Error (BlockImport × LinkHalf)
    pub slot_duration_at : Client → Hash → Result Error Y.SlotDuration
    pub slot_duration : Client → Result Error Y.SlotDuration
    pub slot_from_timestamp : Timestamp → Y.SlotDuration → Slot
    pub default_check_for_equivocation : Y.CheckForEquivocation
    pub default_compatibility_mode : Y.CompatibilityMode
    pub import_queue : ImportQueueParams → Result Error ImportQueue
    pub block_hash : Client → ℕ → Result Error (Option Hash)
    pub network_config : Settings → Option Registry → Y.NetConfig
    pub notification_metrics : Option Registry → Y.Metrics
    pub protocol_standard_name : Hash → Settings → Y.ProtocolName
    pub peer_store_handle : Y.NetConfig → Y.PeerStoreHandle
    pub grandpa_peers_set_config :
        Y.ProtocolName → Y.Metrics → Y.PeerStoreHandle → Y.ProtocolConfig × Y.NotificationService
    pub add_notification_protocol : Y.ProtocolConfig → Y.NetConfig → Y.NetConfig
    pub shared_authority_set : LinkHalf → Y.AuthoritySet
    pub default_hard_forks : Y.HardForks
    pub warp_sync_provider : Backend → Y.AuthoritySet → Y.HardForks → Y.WarpSync
    pub with_provider : Y.WarpSync → Y.WarpSyncConfig
    pub build_network :
        BuildNetworkParams
        → Result Error (Network × Y.SystemRpcTx × Y.TxHandlerController × SyncService)
    pub offchain_storage : Backend → Option Y.OffchainStorage
    pub offchain_pool_factory : Pool → Y.OffchainPoolFactory
    pub offchain_workers : OffchainWorkerOptions → Result Error Y.OffchainWorkers
    pub offchain_run : Y.OffchainWorkers → Client → TaskManager → Y.Task
    pub rpc_new : Y.RpcModule
    pub rpc_merge : Y.RpcModule → Y.RpcModule → Result Y.RpcError Y.RpcModule
    pub system_rpc : Client → Pool → Y.RpcModule
    pub transaction_payment_rpc : Client → Y.RpcModule
    pub rpc_error_into : Y.RpcError → Error
    pub spawn_tasks : SpawnTasksParams → Result Error (Unit {0})
    pub proposer_factory :
        TaskManager → Client → Pool → Option Registry → Option TelemetryHandle → Y.ProposerFactory
    pub start_aura : StartAuraParams → Result Error Y.Task
    pub default_voting_rule : Y.VotingRule
    pub empty_voter_state : Y.VoterState
    pub run_grandpa_voter : GrandpaParams → Result Error Y.Task
