-- ===== src/Template/Contract.antt =====
-- pallets/template/src/lib.rs: the contract of the pallet with its callers, as a machine with the
-- stored value for its state, that replies to each wish and announces events.
use mathlib.Core.List.{map-append}
use nexusguild.Base.{
  ℕ, ◌+◌, ◌==◌, ◌≡◌, refl, ◌∙◌, sym, ap, if◌then◌else◌, Option, none, some, Result, ok, err, List,
  [], ◌∷◌, ◌++◌, map, ltb, arith,
}
use nexusguild.Base.Words.{u32_max}
use nexusguild.Template.Frame.{
  Frame, IsLawful, Event, something_stored, none_value, storage_overflow,
}
use nexusguild.Template.Dispatch.{
  Call, do_something, cause_error, increment, dispatch, dispatch_all,
}
use nexusguild.Template.Errors.{cause_error-increment}
use nexusguild.Template.Events.{events_of, events_of_all, logged, events-dispatch_all}

-- What a caller wishes; a caller without a signature has the error that it is refused with.
pub data Wish (Account Refusal : Type 0) : Type 0 where
  anonymous : Refusal → Wish Account Refusal
  store : Account → ℕ → Wish Account Refusal
  raise : Account → Wish Account Refusal

pub data Reply (Refusal : Type 0) : Type 0 where
  done : Reply Refusal
  turned_away : Refusal → Reply Refusal
  nothing_stored at_maximum : Reply Refusal

-- A value is raised by one below `u32::MAX`.
abbrev pub raised_from : {Refusal : Type 0} → Option ℕ → Reply Refusal × Option ℕ
raised_from none = (nothing_stored, none)
raised_from (some v) = if ltb v u32_max then (done, some (v + 1)) else (at_maximum, some v)

module _ {Account Refusal : Type 0} where
  -- A stored value takes the place of the one before, and is announced with its owner; a value is
  -- raised silently.
  abbrev pub reply : Wish Account Refusal → Option ℕ → Reply Refusal × Option ℕ
  reply (anonymous e) value = (turned_away e, value)
  reply (store who n) value = (done, some n)
  reply (raise who) value = raised_from value

  abbrev pub announced : Wish Account Refusal → List (Event Account)
  announced (anonymous e) = []
  announced (store who n) = something_stored n who ∷ []
  announced (raise who) = []

  -- Wishes one after the other: the replies, and the value at the end.
  abbrev pub serve : List (Wish Account Refusal) → Option ℕ → List (Reply Refusal) × Option ℕ
  serve [] value = ([], value)
  serve (w ∷ ws) value =
      let (r, next) = reply w value in let (rs, last) = serve ws next in (r ∷ rs, last)

  abbrev pub announcements : List (Wish Account Refusal) → List (Event Account)
  announcements [] = []
  announcements (w ∷ ws) = announced w ++ announcements ws

module _ (F : Frame) where
  open F use {AccountId, Origin, DispatchError}

  -- The wish that a call expresses, by what `ensure_signed` says of its origin.
  abbrev pub wish_of : Result DispatchError AccountId → Call → Wish AccountId DispatchError
  wish_of (err e) call = anonymous e
  wish_of (ok who) (do_something n) = store who n
  wish_of (ok who) cause_error = raise who

  abbrev pub wish : Origin × Call → Wish AccountId DispatchError
  wish (origin, call) = wish_of (F.ensure_signed origin) call

  -- A reply as the result of a call.
  abbrev pub result_of : Reply DispatchError → Result DispatchError (Unit {0})
  result_of done = ok tt
  result_of (turned_away e) = err e
  result_of nothing_stored = err (F.error_into none_value)
  result_of at_maximum = err (F.error_into storage_overflow)

  -- What wishes add to the log, in a block of the given number.
  abbrev pub published : ℕ → List (Wish AccountId DispatchError) → List F.RuntimeEvent
  published block wishes = if block == 0 then [] else map F.event_into (announcements wishes)

module _ (F : Frame) where
  open F use {AccountId, Origin, DispatchError}

  -- The events that a call owes are the announcements of its wish.
  pub announced-events_of :
      (call : Call) (origin : Origin) (r : Result DispatchError AccountId)
      → F.ensure_signed origin ≡ r
      → events_of F (origin, call) ≡ map F.event_into (announced (wish_of F r call))
  announced-events_of (do_something n) origin (ok who) h = rw h refl
  announced-events_of (do_something n) origin (err e) h = rw h refl
  announced-events_of cause_error origin (ok who) h = refl
  announced-events_of cause_error origin (err e) h = refl

  announcements-events_of_all :
      (history : List (Origin × Call))
      → events_of_all F history ≡ map F.event_into (announcements (map (wish F) history))
  announcements-events_of_all [] = refl
  announcements-events_of_all ((origin, call) ∷ history) =
      rw (announced-events_of call origin _ refl, announcements-events_of_all history)
        (sym (
          map-append F.event_into (announced (wish F (origin, call)))
            (announcements (map (wish F) history))))

module _ (F : Frame) (L : IsLawful F) where
  open F use {AccountId, Origin, DispatchError, Storage, get_something, ensure_signed}

  abbrev Replies :
      Wish AccountId DispatchError → Storage → Result DispatchError (Unit {0}) × Storage → Type 0
  Replies w s (r, t) =
      let (said, value) = reply w (get_something s) in
      (r ≡ result_of F said) × (get_something t ≡ value)

  increment-reply :
      (stored : Option ℕ) (s : Storage)
      → get_something s ≡ stored
      → let (said, value) = raised_from {Refusal = DispatchError} stored in
        ((increment F stored s).0 ≡ result_of F said)
        × (get_something (increment F stored s).1 ≡ value)
  unfolding increment
  increment-reply none s h = ground arith
  increment-reply (some v) s h = grind (arith, L.get-put)

  dispatch-reply_of :
      (call : Call) (origin : Origin) (s : Storage) (r : Result DispatchError AccountId)
      → ensure_signed origin ≡ r
      → Replies (wish_of F r call) s (dispatch F call origin s)
  unfolding dispatch
  dispatch-reply_of call origin s (err e) h = ground arith
  dispatch-reply_of (do_something n) origin s (ok who) h = grind (arith, L.get-put, L.get-deposit)
  dispatch-reply_of cause_error origin s (ok who) h =
      rw (cause_error-increment F L origin s h) (increment-reply (get_something s) s refl)

  -- A call is answered as its wish.
  pub dispatch-reply :
      (call : Call) (origin : Origin) (s : Storage)
      → Replies (wish F (origin, call)) s (dispatch F call origin s)
  dispatch-reply call origin s = dispatch-reply_of call origin s (ensure_signed origin) refl

  served :
      (history : List (Origin × Call)) (s : Storage)
      → let (replies, value) = serve (map (wish F) history) (get_something s) in
        let (results, t) = dispatch_all F history s in
        (results ≡ map (result_of F) replies) × (get_something t ≡ value)
  unfolding dispatch_all
  served [] s = (refl, refl)
  served ((origin, call) ∷ history) s =
      let (said, value) = dispatch-reply call origin s in
      let (results, last) = served history (dispatch F call origin s).1 in
      (
        rw (said, sym value)
            (ap (λ rs. result_of F (reply (wish F (origin, call)) (get_something s)).0 ∷ rs)
              results),
        last ∙ ap (λ v. (serve (map (wish F) history) v).1) value,
      )

  published-logged :
      (history : List (Origin × Call)) (block : ℕ)
      → logged F block history ≡ published F block (map (wish F) history)
  published-logged history block =
      ap (λ l. if block == 0 then [] else l) (announcements-events_of_all F history)

  -- The pallet keeps its contract in full, over any history of calls and from any storage: the
  -- results are the replies of the contract to the wishes that the calls express, one for one; the
  -- value is the one that the contract is left with; and the log grows by the announcements of the
  -- wishes, in their order, or by nothing in the genesis block. By the contract a call without a
  -- signature is turned away with the error of its origin; a signed `do_something` stores its value
  -- and announces it with the caller; and a signed `cause_error` raises a value below `u32::MAX` by
  -- one, replies `NoneValue` where nothing is stored, and `StorageOverflow` to any other value. The
  -- condition is what FRAME documents of the storage and the errors.
  pub dispatch_all-serve :
      (history : List (Origin × Call)) (s : Storage)
      → let wishes = map (wish F) history in
        let (replies, value) = serve wishes (get_something s) in
        let (results, t) = dispatch_all F history s in
        (results ≡ map (result_of F) replies)
        × (get_something t ≡ value)
        × (F.events t ≡ F.events s ++ published F (F.block_number s) wishes)
  dispatch_all-serve history s =
      let (results, value) = served history s in
      let log = events-dispatch_all F L history s in
      (
        results,
        value,
        log ∙ ap (λ l. F.events s ++ l) (published-logged history (F.block_number s)),
      )
