-- ===== src/Node/Service/Gives.antt =====
-- node/src/service.rs: what `new_partial` gives and which tasks it spawns.
use nexusguild.Base.{
  true, false, Option, none, some, ok, ◌≡◌, refl, List, [], ◌∷◌, ◌++◌, arith, append-nil, ◌∙◌,
}
use nexusguild.Node.Service.Host.{Types, Host, Configuration, ImportQueueParams}
use nexusguild.Node.Service.Log.{Entry}
use nexusguild.Node.Service.Partial.{
  PartialComponents, is_authority, handle_of, import_providers, grandpa_justification_period,
  start_telemetry, spawn_telemetry, new_partial,
}
use nexusguild.Node.Service.Logs.{Logs, entry, Logs-bind, Logs-attempt, Logs-pure, Logs-spawn}

module _ (Y : Types) (H : Host Y) (config : Configuration Y) where
  -- The parts belong together.
  pub record IsWired (p : PartialComponents Y) : Type 0 where
    -- The block import and the GRANDPA link are of one call, over the client and its chain.
    pub linked :
        H.grandpa_block_import p.client grandpa_justification_period p.client p.select_chain
          (handle_of Y H p.telemetry)
        ≡ ok (p.block_import, p.grandpa_link)
    pub longest : p.select_chain ≡ H.longest_chain p.backend
    -- Blocks and justifications that the queue imports go through that block import.
    pub queued :
        (q : ImportQueueParams Y) × (H.import_queue q ≡ ok p.import_queue)
        × (q.block_import ≡ p.block_import)
        × (q.justification_import ≡ some p.block_import)
        × (q.client ≡ p.client)
        × (q.spawner ≡ p.task_manager)
        × (q.create_inherent_data_providers ≡ import_providers Y H p.client)
    pub pooled :
        p.transaction_pool
        ≡ H.build_pool p.task_manager p.client
            (is_authority config.role)
            config.settings
            config.prometheus_registry

  -- The telemetry that is kept, and the entries of its worker.
  pub data TelemetryRun (kept : Option Y.Telemetry) (log : List (Entry Y)) : Type 0 where
    unused :
        ((endpoints : Y.Endpoints)
          → config.telemetry_endpoints ≡ some endpoints
          → H.is_empty endpoints ≡ true)
        → kept ≡ none
        → log ≡ []
        → TelemetryRun kept log
    reported :
        (endpoints : Y.Endpoints) (worker : Y.TelemetryWorker)
        → config.telemetry_endpoints ≡ some endpoints
        → H.is_empty endpoints ≡ false
        → H.telemetry_worker 16 ≡ ok worker
        → kept ≡ some (H.new_telemetry worker endpoints)
        → log ≡ entry Y "telemetry" none (H.telemetry_run worker) ∷ []
        → TelemetryRun kept log

module _ (Y : Types) (H : Host Y) (config : Configuration Y) where
  abbrev pub Kept : Option Y.Telemetry → List (Entry Y) → Type 0
  Kept = TelemetryRun Y H config

  spawn_telemetry-Logs :
      (endpoints : Option Y.Endpoints) (started : Option (Y.TelemetryWorker × Y.Telemetry))
      → config.telemetry_endpoints ≡ endpoints
      → start_telemetry Y H endpoints ≡ ok started
      → Logs Y Kept (spawn_telemetry Y H started)
  unfolding start_telemetry spawn_telemetry
  spawn_telemetry-Logs none none e h = Logs-pure Y Kept none (unused (λ endpoints p. cc) refl refl)
  spawn_telemetry-Logs (some endpoints) none e h =
      Logs-pure Y Kept none (unused (λ given p. ground arith) refl refl)
  spawn_telemetry-Logs none (some (worker, t)) e h = cc
  spawn_telemetry-Logs (some endpoints) (some (worker, t)) e h =
      Logs-bind Y Kept (λ _ log. log ≡ entry Y "telemetry" none (H.telemetry_run worker) ∷ []) _ _
        (Logs-spawn Y _ "telemetry" none (H.telemetry_run worker) refl)
        λ _ first one.
          Logs-pure Y (λ kept log. Kept kept (first ++ log)) (some t)
            (reported endpoints worker e (ground arith) (ground arith) (ground arith)
              (append-nil first ∙ one))

  abbrev pub Partial : PartialComponents Y → List (Entry Y) → Type 0
  Partial p log = IsWired Y H config p × TelemetryRun Y H config p.telemetry log

  -- The parts belong together, and the log is that of the telemetry.
  pub new_partial-Logs : Logs Y Partial (new_partial Y H config)
  unfolding new_partial
  new_partial-Logs = Logs-attempt Y Partial _ _ λ started s. Logs-attempt Y Partial _ _ λ parts _.
      Logs-bind Y Partial Kept _ _ (spawn_telemetry-Logs config.telemetry_endpoints started refl s)
        λ kept first run. Logs-attempt Y _ _ _ λ grandpa linked.
          Logs-attempt Y _ _ _ λ queue queued.
            Logs-pure Y (λ p log. Partial p (first ++ log)) _
              (
                record {
                  linked = linked;
                  longest = refl;
                  queued = (_, queued, refl, refl, refl, refl, refl);
                  pooled = refl;
                },
                rw (append-nil first) run,
              )

  -- The partial components that `new_partial` returns belong together: the block import and the
  -- GRANDPA link come from one call over the client and its longest chain, the import queue passes
  -- blocks and justifications to that block import and checks inherents by that client, and the
  -- pool is that of the same client and task manager, for an authority exactly if the role is one.
  pub new_partial-IsWired :
      (log : List (Entry Y)) (p : PartialComponents Y)
      → (new_partial Y H config log).0 ≡ ok p
      → IsWired Y H config p
  new_partial-IsWired log p q = (new_partial-Logs.from log p q).2.0
