-- ===== src/Node/Service/Example.antt =====
-- node/src/service.rs: a host whose parts are trivial, and the configuration of a validator.
use mathlib.Core.List.{nodup_decidable, Nodup}
use nexusguild.Base.{
  ok-ne-err, sym, ℕ, ◌≡◌, refl, String, str_eq, str_eq_iff, Bool, true, arith, err, false, Option,
  none, some, Result, ok, List, [], ◌∷◌, ◌++◌,
}
use nexusguild.Node.Service.Wiring.{IsRpc}
use nexusguild.Node.Service.Host.{Types, Host, Configuration, authority}

abbrev pub One : Type 0
One = Unit {0}

abbrev pub types : Types
types = record {
  Error = One;
  Endpoints = One;
  TelemetryWorker = One;
  Telemetry = One;
  TelemetryHandle = One;
  Settings = One;
  Registry = One;
  Executor = One;
  Client = One;
  Backend = One;
  Keystore = One;
  KeystoreContainer = One;
  TaskManager = One;
  SelectChain = One;
  Pool = One;
  OffchainWorkers = One;
  OffchainExtension = One;
  OffchainStorage = One;
  OffchainPoolFactory = One;
  BlockImport = One;
  LinkHalf = One;
  ImportQueue = One;
  CompatibilityMode = One;
  CheckForEquivocation = One;
  Hash = One;
  NetConfig = One;
  Metrics = One;
  ProtocolName = One;
  ProtocolConfig = One;
  NotificationService = One;
  HardForks = One;
  AuthoritySet = One;
  PeerStoreHandle = One;
  WarpSync = One;
  BlockRelay = One;
  AnnounceValidatorBuilder = One;
  WarpSyncConfig = One;
  Network = One;
  SystemRpcTx = One;
  TxHandlerController = One;
  SyncService = One;
  SlotDuration = ℕ;
  Slot = ℕ;
  Timestamp = ℕ;
  ProposerFactory = One;
  VoterState = One;
  VotingRule = One;
  RpcError = One;
  RpcModule = List String;
  Task = One;
}

pub String-discrete : Discrete String
String-discrete s t = by_test (str_eq s t) refl
  where
    by_test : (b : Bool) → str_eq s t ≡ b → Dec (s ≡ t)
    by_test true e = yes ((str_eq_iff s t).0 e)
    by_test false e = no (λ same. ground (arith, str_eq_iff s t))

abbrev joined_if : (l : List String) → Dec (Nodup l) → Result One (List String)
joined_if l (yes differ) = ok l
joined_if l (no clash) = err tt

joined_if-yes : (l : List String) (d : Dec (Nodup l)) → Nodup l → joined_if l d ≡ ok l
joined_if-yes l (yes _) differ = refl
joined_if-yes l (no clash) differ = absurd (clash differ)

joined_if-ok : (l m : List String) (d : Dec (Nodup l)) → joined_if l d ≡ ok m → Nodup l
joined_if-ok l m (yes differ) e = differ
joined_if-ok l m (no clash) e = absurd (ok-ne-err (sym e))

-- The lookup of the genesis block is the argument.
abbrev pub host : Result One (Option One) → Host types
host genesis = record {
  is_empty = λ _. false;
  telemetry_worker = λ _. ok tt;
  new_telemetry = λ _ _. tt;
  telemetry_handle = λ _. tt;
  telemetry_run = λ _. tt;
  new_wasm_executor = λ _. tt;
  new_full_parts = λ _ _ _. ok (tt, tt, tt, tt);
  keystore = λ _. tt;
  longest_chain = λ _. tt;
  build_pool = λ _ _ _ _ _. tt;
  grandpa_block_import = λ _ _ _ _ _. ok (tt, tt);
  slot_duration_at = λ _ _. ok 6000;
  slot_duration = λ _. ok 6000;
  slot_from_timestamp = λ timestamp duration. timestamp;
  default_check_for_equivocation = tt;
  default_compatibility_mode = tt;
  import_queue = λ _. ok tt;
  block_hash = λ _ _. genesis;
  network_config = λ _ _. tt;
  notification_metrics = λ _. tt;
  protocol_standard_name = λ _ _. tt;
  peer_store_handle = λ _. tt;
  grandpa_peers_set_config = λ _ _ _. (tt, tt);
  add_notification_protocol = λ _ _. tt;
  shared_authority_set = λ _. tt;
  default_hard_forks = tt;
  warp_sync_provider = λ _ _ _. tt;
  with_provider = λ _. tt;
  build_network = λ _. ok (tt, tt, tt, tt);
  offchain_storage = λ _. none;
  offchain_pool_factory = λ _. tt;
  offchain_workers = λ _. ok tt;
  offchain_run = λ _ _ _. tt;
  rpc_new = [];
  rpc_merge = λ a b. joined_if (a ++ b) (nodup_decidable String-discrete (a ++ b));
  system_rpc = λ _ _. "system_accountNextIndex" ∷ [];
  transaction_payment_rpc = λ _. "payment_queryInfo" ∷ [];
  rpc_error_into = λ _. tt;
  spawn_tasks = λ _. ok tt;
  proposer_factory = λ _ _ _ _ _. tt;
  start_aura = λ _. ok tt;
  default_voting_rule = tt;
  empty_voter_state = tt;
  run_grandpa_voter = λ _. ok tt;
}

abbrev pub validator : Configuration types
validator = record {
  telemetry_endpoints = some tt;
  role = authority;
  force_authoring = false;
  disable_grandpa = false;
  offchain_enabled = false;
  node_name = "alice";
  network_backend = none;
  prometheus_registry = none;
  settings = tt;
}

-- Modules with a method in common are not merged.
pub host-IsRpc : (genesis : Result One (Option One)) → IsRpc types (host genesis) (λ m. m)
host-IsRpc genesis = record {
  new_module = refl;
  merges = λ a b differ. (a ++ b, joined_if-yes (a ++ b) _ differ, refl);
  clashes = λ a b c merged. joined_if-ok (a ++ b) c _ merged;
}
