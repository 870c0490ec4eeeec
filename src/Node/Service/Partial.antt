-- ===== src/Node/Service/Partial.antt =====
-- node/src/service.rs: `new_partial`, the parts of the node that every subcommand uses.
use nexusguild.Base.{
  ℕ, Bool, true, false, if◌then◌else◌, Option, none, some, Result, ok, map_ok, ◌>>=◌, ◌>>◌, pure,
}
use mathlib.Core.Option
use nexusguild.Node.Service.Host.{
  Types, Host, Configuration, Role, full, authority, ImportQueueParams,
}
use nexusguild.Node.Service.Log.{Building, attempt, spawn}

-- `GRANDPA_JUSTIFICATION_PERIOD`
abbrev pub grandpa_justification_period : ℕ
grandpa_justification_period = 512

-- `role.is_authority()`
abbrev pub is_authority : Role → Bool
is_authority authority = true
is_authority full = false

module _ (Y : Types) where
  -- `sc_service::PartialComponents`, with the fields of `other` by their names.
  pub record PartialComponents : Type 0 where
    pub client : Y.Client
    pub backend : Y.Backend
    pub task_manager : Y.TaskManager
    pub import_queue : Y.ImportQueue
    pub keystore_container : Y.KeystoreContainer
    pub select_chain : Y.SelectChain
    pub transaction_pool : Y.Pool
    pub block_import : Y.BlockImport
    pub grandpa_link : Y.LinkHalf
    pub telemetry : Option Y.Telemetry

module _ (Y : Types) (H : Host Y) where
  open Y use {
    Error, Client, TelemetryHandle, Telemetry, TelemetryWorker, Hash, Slot, Timestamp, SlotDuration,
  }

  -- Endpoints that are given and not empty get a worker and a telemetry.
  unfoldable pub start_telemetry :
      Option Y.Endpoints → Result Error (Option (TelemetryWorker × Telemetry))
  start_telemetry none = ok none
  start_telemetry (some endpoints) =
      if H.is_empty endpoints
      then ok none
      else map_ok (λ worker. some (worker, H.new_telemetry worker endpoints))
          (H.telemetry_worker 16)

  -- `telemetry.as_ref().map(|x| x.handle())`
  abbrev pub handle_of : Option Telemetry → Option TelemetryHandle
  handle_of = Option.map H.telemetry_handle

  -- The worker is run as a task, and the telemetry is kept.
  unfoldable pub spawn_telemetry :
      Option (TelemetryWorker × Telemetry) → Building Y (Option Telemetry)
  spawn_telemetry none = pure none
  spawn_telemetry (some (worker, telemetry)) = do
    spawn Y "telemetry" none (H.telemetry_run worker)
    pure (some telemetry)

  -- The closure of the import queue: the slot duration is that of the parent block.
  unfoldable pub import_providers : Client → Hash → Timestamp → Result Error (Slot × Timestamp)
  import_providers client parent_hash timestamp =
      map_ok (λ slot_duration. (H.slot_from_timestamp timestamp slot_duration, timestamp))
        (H.slot_duration_at client parent_hash)

  -- The closure of the author: the slot duration is the one read when the author was started.
  unfoldable pub author_providers :
      SlotDuration → Hash → Timestamp → Result Error (Slot × Timestamp)
  author_providers slot_duration parent_hash timestamp =
      ok (H.slot_from_timestamp timestamp slot_duration, timestamp)

  unfoldable pub new_partial : Configuration Y → Building Y (PartialComponents Y)
  new_partial config = do
    telemetry ← attempt Y (start_telemetry config.telemetry_endpoints)
    let executor = H.new_wasm_executor config.settings
    (client, backend, keystore_container, task_manager) ←
        attempt Y
          (H.new_full_parts config (handle_of (Option.map (λ (worker, t). t) telemetry)) executor)
    kept ← spawn_telemetry telemetry
    let select_chain = H.longest_chain backend
    let transaction_pool =
        H.build_pool task_manager client (is_authority config.role) config.settings
          config.prometheus_registry
    (grandpa_block_import, grandpa_link) ← attempt Y (
        H.grandpa_block_import client grandpa_justification_period client select_chain
          (handle_of kept))
    let params : ImportQueueParams Y = record {
      block_import = grandpa_block_import;
      justification_import = some grandpa_block_import;
      client = client;
      create_inherent_data_providers = import_providers client;
      spawner = task_manager;
      registry = config.prometheus_registry;
      check_for_equivocation = H.default_check_for_equivocation;
      telemetry = handle_of kept;
      compatibility_mode = H.default_compatibility_mode;
    }
    import_queue ← attempt Y (H.import_queue params)
    pure (record {
      client = client;
      backend = backend;
      task_manager = task_manager;
      import_queue = import_queue;
      keystore_container = keystore_container;
      select_chain = select_chain;
      transaction_pool = transaction_pool;
      block_import = grandpa_block_import;
      grandpa_link = grandpa_link;
      telemetry = kept;
    })
