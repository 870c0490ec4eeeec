-- ===== src/Runtime/Aggregates/Log.antt =====
-- runtime/src/lib.rs with pallets/template/src/lib.rs: the events of the template pallet in the log
-- of the runtime, among those of the other pallets.
use nexusguild.Base.{
  ℕ, ◌≡◌, ◌≢◌, ◌∙◌, refl, sym, ap, append_assoc, append-nil, Option, map, none, some, List, [], ◌∷◌,
  ◌++◌,
}
use nexusguild.Template.Frame.{Event}
use nexusguild.Template.Dispatch.{Call}
use nexusguild.Template.Contract.{Wish, wish, announced, announcements, announced-events_of}
use nexusguild.Template.Events.{events_of, block_number-dispatch, events-dispatch}
use nexusguild.Runtime.Calls.{
  Pallet, template, CallCodec, RuntimeCall, runtime_call, decode_runtime_call,
}
use nexusguild.Runtime.Calls.Execution.{
  OtherPallets, AllOrdinary, dispatch_runtime_call, dispatch_read, dispatch_bytes, run_bytes,
}
use nexusguild.Runtime.Aggregates.{RuntimeEvent, runtime_event, SystemApi, IsSystem, runtime_frame}
use nexusguild.Runtime.Aggregates.Laws.{runtime_frame-IsLawful}

module _ (S : SystemApi) where
  open S use {AccountId, Origin, Storage, DispatchError, PalletEvent, ensure_signed}

  -- The events of the template pallet in a log, in their order.
  abbrev pub stored_event : RuntimeEvent PalletEvent AccountId → List (Event AccountId)
  stored_event (runtime_event template e) = e ∷ []
  stored_event (runtime_event p e) = []

  abbrev pub stored_events : List (RuntimeEvent PalletEvent AccountId) → List (Event AccountId)
  stored_events [] = []
  stored_events (e ∷ log) = stored_event e ++ stored_events log

  abbrev pub stored_in : Storage → List (Event AccountId)
  stored_in s = stored_events (S.events s)

  pub stored_events-append :
      (log more : List (RuntimeEvent PalletEvent AccountId))
      → stored_events (log ++ more) ≡ stored_events log ++ stored_events more
  stored_events-append [] more = refl
  stored_events-append (e ∷ log) more =
      ap (λ l. stored_event e ++ l) (stored_events-append log more)
      ∙ sym (append_assoc (stored_event e) (stored_events log) (stored_events more))

  stored_events-map :
      (es : List (Event AccountId)) → stored_events (map (λ e. runtime_event template e) es) ≡ es
  stored_events-map [] = refl
  stored_events-map (e ∷ es) = ap (λ l. e ∷ l) (stored_events-map es)

  -- The wishes that calls and bytes express to the template pallet: those of its own calls, and
  -- none for the calls of other pallets and for bytes that are no call.
  abbrev pub wish_called :
      {C : CallCodec} → Origin → RuntimeCall C → List (Wish AccountId DispatchError)
  wish_called origin (runtime_call template call) = wish (runtime_frame S) (origin, call) ∷ []
  wish_called origin (runtime_call p call) = []

  abbrev pub wish_read :
      {C : CallCodec}
      → Origin
      → Option (RuntimeCall C × List ℕ)
      → List (Wish AccountId DispatchError)
  wish_read origin none = []
  wish_read origin (some (call, rest)) = wish_called origin call

  abbrev pub wishes : CallCodec → List (Origin × List ℕ) → List (Wish AccountId DispatchError)
  wishes C [] = []
  wishes C ((origin, bytes) ∷ history) =
      wish_read origin (decode_runtime_call C bytes) ++ wishes C history

  announcements-append :
      (ws more : List (Wish AccountId DispatchError))
      → announcements (ws ++ more) ≡ announcements ws ++ announcements more
  announcements-append [] more = refl
  announcements-append (w ∷ ws) more =
      ap (λ l. announced w ++ l) (announcements-append ws more)
      ∙ sym (append_assoc (announced w) (announcements ws) (announcements more))

  stored_events-events_of :
      (origin : Origin) (call : Call)
      → stored_events (events_of (runtime_frame S) (origin, call))
        ≡ announcements (wish (runtime_frame S) (origin, call) ∷ [])
  stored_events-events_of origin call =
      let w = wish (runtime_frame S) (origin, call) in
      ap stored_events (announced-events_of (runtime_frame S) call origin _ refl)
      ∙ stored_events-map (announced w)
      ∙ sym (append-nil (announced w))

-- What FRAME documents of the other pallets: a call logs events of its own pallet and of those that
-- it calls, and no call changes the number of the block. A call of `Sudo` with the sudo key may
-- call the template pallet; the other origins are ordinary.
pub record LogsApart (S : SystemApi) (C : CallCodec) (O : OtherPallets C (runtime_frame S))
    (Ordinary : S.Origin → Type 0) : Type 0 where
  pub logged :
      (p : Pallet) (call : C.PalletCall p) (origin : S.Origin) (s : S.Storage)
      → Ordinary origin
      → stored_in S (O.dispatch_pallet_call p call origin s).1 ≡ stored_in S s
  pub same_block :
      (p : Pallet) (call : C.PalletCall p) (origin : S.Origin) (s : S.Storage)
      → Ordinary origin
      → S.block_number (O.dispatch_pallet_call p call origin s).1 ≡ S.block_number s

module _ (S : SystemApi) (L : IsSystem S) (C : CallCodec) (O : OtherPallets C (runtime_frame S))
    (Ordinary : S.Origin → Type 0) (A : LogsApart S C O Ordinary) where
  open S use {Origin, Storage, block_number}

  abbrev Logs : List (Wish S.AccountId S.DispatchError) → Storage → Storage → Type 0
  Logs ws s t =
      (stored_in S t ≡ stored_in S s ++ announcements ws) × (block_number t ≡ block_number s)

  call-Logs :
      (call : RuntimeCall C) (origin : Origin) (s : Storage)
      → Ordinary origin
      → block_number s ≢ 0
      → Logs
          (wish_called S origin call)
          s
          (dispatch_runtime_call C (runtime_frame S) O call origin s).1
  unfolding dispatch_runtime_call
  call-Logs (runtime_call template call) origin s o later =
      let frame = runtime_frame-IsLawful S L in
      (
        ap (stored_events S) (events-dispatch (runtime_frame S) frame call origin s later)
            ∙ stored_events-append S (S.events s) (events_of (runtime_frame S) (origin, call))
            ∙ ap (λ l. stored_in S s ++ l) (stored_events-events_of S origin call),
        block_number-dispatch (runtime_frame S) frame call origin s,
      )
  call-Logs (runtime_call p call) origin s o later = (
    A.logged p call origin s o ∙ sym (append-nil (stored_in S s)),
    A.same_block p call origin s o,
  )

  read-Logs :
      (r : Option (RuntimeCall C × List ℕ)) (origin : Origin) (s : Storage)
      → Ordinary origin
      → block_number s ≢ 0
      → Logs (wish_read S origin r) s (dispatch_read C (runtime_frame S) O r origin s).1
  read-Logs none origin s o later = (sym (append-nil (stored_in S s)), refl)
  read-Logs (some (call, rest)) origin s o later = call-Logs call origin s o later

  -- Past the genesis block, whatever bytes are given as calls by any origins but the root and the
  -- sudo key: the events of the template pallet in the log grow by one `SomethingStored` for each
  -- byte string that decodes to `do_something` and comes from a signed origin, with its value and
  -- its caller and in their order, whatever the other pallets log in between. The conditions are
  -- those on the system, and that ordinary calls of the other pallets log no event of the template
  -- pallet and stay in the block.
  pub run_bytes-stored_events :
      (history : List (Origin × List ℕ)) (s : Storage)
      → AllOrdinary C (runtime_frame S) Ordinary history
      → block_number s ≢ 0
      → stored_in S (run_bytes C (runtime_frame S) O history s)
        ≡ stored_in S s ++ announcements (wishes S C history)
  run_bytes-stored_events [] s os later = sym (append-nil (stored_in S s))
  run_bytes-stored_events ((origin, bytes) ∷ history) s (o, os) later =
      let next = (dispatch_bytes C (runtime_frame S) O bytes origin s).1 in
      let (logged, block) = read-Logs (decode_runtime_call C bytes) origin s o later in
      run_bytes-stored_events history next os (rw block later)
      ∙ ap (λ l. l ++ announcements (wishes S C history)) logged
      ∙ append_assoc (stored_in S s) _ (announcements (wishes S C history))
      ∙ ap (λ l. stored_in S s ++ l)
          (sym (
            announcements-append S (wish_read S origin (decode_runtime_call C bytes))
              (wishes S C history)))
