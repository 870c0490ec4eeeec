-- ===== src/Node/Service/Crates.antt =====
-- node/src/service.rs: the types that the service takes from the crates of Substrate.
pub record Types : Type 1 where
  pub Error : Type 0
  pub Endpoints : Type 0
  pub TelemetryWorker : Type 0
  pub Telemetry : Type 0
  pub TelemetryHandle : Type 0
  pub Settings : Type 0
  pub Registry : Type 0
  pub Executor : Type 0
  pub Client : Type 0
  pub Backend : Type 0
  pub KeystoreContainer : Type 0
  pub Keystore : Type 0
  pub TaskManager : Type 0
  pub SelectChain : Type 0
  pub Pool : Type 0
  pub OffchainPoolFactory : Type 0
  pub OffchainStorage : Type 0
  pub OffchainExtension : Type 0
  pub OffchainWorkers : Type 0
  pub BlockImport : Type 0
  pub LinkHalf : Type 0
  pub ImportQueue : Type 0
  pub CheckForEquivocation : Type 0
  pub CompatibilityMode : Type 0
  pub Hash : Type 0
  pub NetConfig : Type 0
  pub Metrics : Type 0
  pub ProtocolName : Type 0
  pub ProtocolConfig : Type 0
  pub PeerStoreHandle : Type 0
  pub NotificationService : Type 0
  pub AuthoritySet : Type 0
  pub HardForks : Type 0
  pub WarpSync : Type 0
  pub WarpSyncConfig : Type 0
  pub AnnounceValidatorBuilder : Type 0
  pub BlockRelay : Type 0
  pub Network : Type 0
  pub SystemRpcTx : Type 0
  pub TxHandlerController : Type 0
  pub SyncService : Type 0
  pub SlotDuration : Type 0
  pub Slot : Type 0
  pub Timestamp : Type 0
  pub ProposerFactory : Type 0
  pub VotingRule : Type 0
  pub VoterState : Type 0
  pub RpcError : Type 0
  pub RpcModule : Type 0
  pub Task : Type 0
