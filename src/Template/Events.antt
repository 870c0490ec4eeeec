-- ===== src/Template/Events.antt =====
-- pallets/template/src/lib.rs: the events that the calls deposit.
use native.Mathlib.Decide.{ℕ_discrete}
use nexusguild.Base.{
  ℕ, ◌==◌, if◌then◌else◌, ◌≡◌, ◌≢◌, refl, ◌∙◌, sym, ap, append_assoc, append-nil, Result, ok, err,
  List, [], ◌∷◌, ◌++◌, arith,
}
use nexusguild.Template.Frame.{Frame, IsLawful, something_stored}
use nexusguild.Template.Dispatch.{Call, do_something, cause_error, dispatch, dispatch_all}

module _ (F : Frame) where
  abbrev pub events_of_result :
      {A : Type 0} → (A → List F.RuntimeEvent) → Result F.DispatchError A → List F.RuntimeEvent
  events_of_result f (ok who) = f who
  events_of_result f (err e) = []

  -- The events that a call owes: one for a signed `do_something`, with its value and its caller,
  -- and none for `cause_error`.
  abbrev pub events_of : F.Origin × Call → List F.RuntimeEvent
  events_of (origin, do_something n) =
      events_of_result (λ who. F.event_into (something_stored n who) ∷ []) (F.ensure_signed origin)
  events_of (origin, cause_error) = []

  abbrev pub events_of_all : List (F.Origin × Call) → List F.RuntimeEvent
  events_of_all [] = []
  events_of_all (x ∷ history) = events_of x ++ events_of_all history

  -- What the log gets of them in a block of the given number.
  abbrev pub logged : ℕ → List (F.Origin × Call) → List F.RuntimeEvent
  logged block history = if block == 0 then [] else events_of_all history

  logged_genesis :
      (block : ℕ) (history : List (F.Origin × Call)) → block ≡ 0 → logged block history ≡ []
  logged_genesis block history e = ground arith

  logged_later :
      (block : ℕ) (history : List (F.Origin × Call))
      → block ≢ 0
      → logged block history ≡ events_of_all history
  logged_later block history n = ground arith

module _ (F : Frame) (L : IsLawful F) where
  open F use {Origin, Storage, events, block_number}

  pub block_number-dispatch :
      (call : Call) (origin : Origin) (s : Storage)
      → block_number (dispatch F call origin s).1 ≡ block_number s
  unfolding dispatch
  block_number-dispatch call origin s = grind (arith, L.block-put, L.block-deposit)

  pub events-dispatch :
      (call : Call) (origin : Origin) (s : Storage)
      → block_number s ≢ 0
      → events (dispatch F call origin s).1 ≡ events s ++ events_of F (origin, call)
  unfolding dispatch
  events-dispatch (do_something n) origin s h =
      grind (arith, L.events-put, L.events-deposit, L.block-put, append-nil)
  events-dispatch cause_error origin s h = grind (arith, L.events-put, append-nil)

  events-dispatch_genesis :
      (call : Call) (origin : Origin) (s : Storage)
      → block_number s ≡ 0
      → events (dispatch F call origin s).1 ≡ events s
  unfolding dispatch
  events-dispatch_genesis call origin s h =
      grind (arith, L.events-put, L.events-deposit_genesis, L.block-put)

  events_later :
      (history : List (Origin × Call)) (s : Storage)
      → block_number s ≢ 0
      → events (dispatch_all F history s).1 ≡ events s ++ events_of_all F history
  unfolding dispatch_all
  events_later [] s h = sym (append-nil (events s))
  events_later ((origin, call) ∷ history) s h =
      events_later history (dispatch F call origin s).1 (rw (block_number-dispatch call origin s) h)
      ∙ ap (λ l. l ++ events_of_all F history) (events-dispatch call origin s h)
      ∙ append_assoc (events s) (events_of F (origin, call)) (events_of_all F history)

  events_genesis :
      (history : List (Origin × Call)) (s : Storage)
      → block_number s ≡ 0
      → events (dispatch_all F history s).1 ≡ events s
  unfolding dispatch_all
  events_genesis [] s h = refl
  events_genesis ((origin, call) ∷ history) s h =
      events_genesis history (dispatch F call origin s).1 (block_number-dispatch call origin s ∙ h)
      ∙ events-dispatch_genesis call origin s h

  -- Past the genesis block, a history of calls appends to the event log one `SomethingStored` for
  -- each signed `do_something`, with its value and its caller and in the order of the calls, and
  -- nothing else: `cause_error` changes the value without an event. In the genesis block no call
  -- leaves an event.
  pub events-dispatch_all :
      (history : List (Origin × Call)) (s : Storage)
      → events (dispatch_all F history s).1 ≡ events s ++ logged F (block_number s) history
  events-dispatch_all history s = elim (ℕ_discrete (block_number s) 0) [
    | yes e ↦
        events_genesis history s e
        ∙ sym (append-nil (events s))
        ∙ ap (λ l. events s ++ l) (sym (logged_genesis F _ history e))
    | no n ↦ events_later history s n ∙ ap (λ l. events s ++ l) (sym (logged_later F _ history n))
  ]
