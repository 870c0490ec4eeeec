-- ===== src/Node/Service/Slots.antt =====
-- node/src/service.rs with runtime/src/apis.rs: the slots that the author of a node and the
-- importer of its blocks compute, against the slot duration of the runtime.
use nexusguild.Base.{
  ℕ, some, ◌*◌, ◌≡◌, ◌∙◌, sym, ap, min, true, ok, err, List, [], ◌∷◌, ◌++◌, append_assoc,
}
use mathlib.Core.Bool.{true≢false}
use nexusguild.Base.Words.{u64_max}
use nexusguild.Runtime.Time.{aura_slot_duration}
use nexusguild.Runtime.Apis.Consensus.{slot_duration}
use nexusguild.Node.Service.Host.{Types, Host, Configuration, ImportQueueParams, StartAuraParams}
use nexusguild.Node.Service.Partial.{
  PartialComponents, is_authority, import_providers, author_providers,
}
use nexusguild.Node.Service.Log.{Entry}
use nexusguild.Node.Service.Logs.{essential_entry}
use nexusguild.Node.Service.Full.{new_full}
use nexusguild.Node.Service.Stages.{no_author, author}
use nexusguild.Node.Service.Runs.{IsRun, new_full-IsRun}

module _ (Y : Types) (H : Host Y) (from_millis : ℕ → Y.SlotDuration) where
  -- What `sc_consensus_aura` documents: it asks the runtime for the slot duration, at the parent
  -- block or at the best one. A query can fail; what it answers is what the runtime of this
  -- repository, which every block of the chain is taken to run, gives.
  pub record AsksRuntime (times_two : ℕ → ℕ) : Type 0 where
    pub doubles : (n : ℕ) → times_two n ≡ min (n * 2) u64_max
    pub at :
        (client : Y.Client) (parent : Y.Hash) (duration : Y.SlotDuration)
        → H.slot_duration_at client parent ≡ ok duration
        → duration ≡ slot_duration from_millis times_two
    pub at_best :
        (client : Y.Client) (duration : Y.SlotDuration)
        → H.slot_duration client ≡ ok duration
        → duration ≡ slot_duration from_millis times_two

  -- The import queue of the parts of a run and the author that the run spawned work on one client
  -- and one block import. The author puts its blocks into the slot of their time by slots of 6
  -- seconds. The queue does so for a block with any parent at which it can read the duration, and
  -- refuses the block with the error of that query otherwise.
  pub record SlotsAgree (config : Configuration Y) (manager : Y.TaskManager) (log : List (Entry Y))
      : Type 0 where
    pub parts : PartialComponents Y
    pub managed : manager ≡ parts.task_manager
    pub import_params : ImportQueueParams Y
    pub queue_made : H.import_queue import_params ≡ ok parts.import_queue
    pub author_params : StartAuraParams Y
    pub body : Y.Task
    pub author_made : H.start_aura author_params ≡ ok body
    pub before : List (Entry Y)
    pub after : List (Entry Y)
    pub spawned : log ≡ before ++ essential_entry Y "aura" (some "block-authoring") body ∷ after
    pub forced : author_params.force_authoring ≡ config.force_authoring
    pub import_client : import_params.client ≡ parts.client
    pub author_client : author_params.client ≡ parts.client
    pub import_through : import_params.block_import ≡ parts.block_import
    pub author_through : author_params.block_import ≡ parts.block_import
    pub imported :
        (parent : Y.Hash) (now : Y.Timestamp) (duration : Y.SlotDuration)
        → H.slot_duration_at parts.client parent ≡ ok duration
        → import_params.create_inherent_data_providers parent now
          ≡ ok (H.slot_from_timestamp now (from_millis 6000), now)
    pub refused :
        (parent : Y.Hash) (now : Y.Timestamp) (e : Y.Error)
        → H.slot_duration_at parts.client parent ≡ err e
        → import_params.create_inherent_data_providers parent now ≡ err e
    pub authored :
        (parent : Y.Hash) (now : Y.Timestamp)
        → author_params.create_inherent_data_providers parent now
          ≡ ok (H.slot_from_timestamp now (from_millis 6000), now)

module _ (Y : Types) (H : Host Y) (from_millis : ℕ → Y.SlotDuration) (times_two : ℕ → ℕ)
    (A : AsksRuntime Y H from_millis times_two) where
  slot_duration-6000 : slot_duration from_millis times_two ≡ from_millis 6000
  unfolding slot_duration aura_slot_duration
  slot_duration-6000 = ap from_millis (A.doubles 3000)

  import_providers-slot :
      (client : Y.Client) (parent : Y.Hash) (now : Y.Timestamp) (duration : Y.SlotDuration)
      → H.slot_duration_at client parent ≡ ok duration
      → import_providers Y H client parent now
        ≡ ok (H.slot_from_timestamp now (from_millis 6000), now)
  unfolding import_providers
  import_providers-slot client parent now duration read =
      rw (read, A.at client parent duration read, slot_duration-6000)

  import_providers-refused :
      (client : Y.Client) (parent : Y.Hash) (now : Y.Timestamp) (e : Y.Error)
      → H.slot_duration_at client parent ≡ err e
      → import_providers Y H client parent now ≡ err e
  unfolding import_providers
  import_providers-refused client parent now e failed = rw failed

  author_providers-slot :
      (client : Y.Client) (duration : Y.SlotDuration) (parent : Y.Hash) (now : Y.Timestamp)
      → H.slot_duration client ≡ ok duration
      → author_providers Y H duration parent now
        ≡ ok (H.slot_from_timestamp now (from_millis 6000), now)
  unfolding author_providers
  author_providers-slot client duration parent now read =
      rw (A.at_best client duration read, slot_duration-6000)

  -- The author's entry stands between what is logged before it and what is logged after it.
  between :
      (log first second third after : List (Entry Y)) (e : Entry Y) (own : List (Entry Y))
      → log ≡ first ++ (second ++ (third ++ (own ++ after)))
      → own ≡ e ∷ []
      → log ≡ (first ++ (second ++ third)) ++ e ∷ after
  between log first second third after e own whole is_own =
      whole
      ∙ rw (
        is_own,
        append_assoc first (second ++ third) (e ∷ after),
        append_assoc second third (e ∷ after),
      )

  run-SlotsAgree :
      (config : Configuration Y) (manager : Y.TaskManager) (log : List (Entry Y))
      → is_authority config.role ≡ true
      → IsRun Y H config manager log
      → SlotsAgree Y H from_millis config manager log
  run-SlotsAgree config manager log on run =
      let (i, queue_made, through, _, client, _, importing) = run.wired.queued in
      let c = run.parts.client in
      elim run.authored [
        | no_author off _ ↦ absurd (true≢false (sym on ∙ off))
        | author q body _ made (read, authoring) import_same client_same _ _ forced _ _ own ↦
            record {
              parts = run.parts;
              managed = run.managed;
              import_params = i;
              queue_made = queue_made;
              author_params = q;
              body = body;
              author_made = made;
              before = run.telemetry_log ++ (run.offchain_log ++ run.service_log);
              after = run.voter_log;
              spawned =
                  between log run.telemetry_log run.offchain_log run.service_log run.voter_log _
                    run.author_log run.whole own;
              forced = forced;
              import_client = client;
              author_client = client_same;
              import_through = through;
              author_through = import_same;
              imported = λ parent now d h. rw importing (import_providers-slot c parent now d h);
              refused = λ parent now e h. rw importing (import_providers-refused c parent now e h);
              authored = λ parent now.
                  rw authoring (author_providers-slot c q.slot_duration parent now read);
            }
      ]

  -- Where `new_full` returns the task manager of an authority's node, the import queue of the parts
  -- with that task manager and the author that the log of the run spawns as `aura` work on one
  -- client and one block import. The author computes the slots of 6 seconds from `from_millis` for
  -- a block with any parent at any time, with the duration it was started with. The import queue
  -- computes the same slots wherever it can read the duration at the parent, and errs as that query
  -- does elsewhere. The conditions are that what `sc_consensus_aura` reads as the duration, if it
  -- can read it, is what the runtime of this repository gives, and that `MinimumPeriodTimesTwo`
  -- doubles with saturation.
  pub new_full-SlotsAgree :
      (config : Configuration Y) (manager : Y.TaskManager)
      → is_authority config.role ≡ true
      → (new_full Y H config []).0 ≡ ok manager
      → SlotsAgree Y H from_millis config manager (new_full Y H config []).1
  new_full-SlotsAgree config manager on returned =
      run-SlotsAgree config manager (new_full Y H config []).1 on
        (new_full-IsRun Y H config manager returned)
