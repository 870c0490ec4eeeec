-- ===== src/Template/Dispatch.antt =====
-- pallets/template/src/lib.rs: the dispatchable functions, and the enum `Call` of them.
use nexusguild.Base.{
  ℕ, Option, none, some, Result, err, List, [], ◌∷◌, ok_or, Stateful, ◌>>=◌, ◌>>◌, propagate, pure,
  modify, gets,
}
use nexusguild.Base.Words.{checked_add_u32}
use nexusguild.Template.Frame.{Frame, Event, something_stored, none_value, storage_overflow}

-- `Call<T>`; the argument is a `u32`.
pub data Call : Type 0 where
  do_something : ℕ → Call
  cause_error : Call

-- The `call_index` of each call.
unfoldable pub call_index : Call → ℕ
call_index (do_something something) = 0
call_index cause_error = 1

module _ (F : Frame) where
  open F use {AccountId, Origin, DispatchError, Storage}

  -- `DispatchResult`, with the storage that the call leaves.
  abbrev pub Dispatched : Type 0 → Type 0
  Dispatched A = Stateful Storage DispatchError A

  -- `Self::deposit_event`, which the attribute `generate_deposit` generates.
  deposit_event : Event AccountId → Storage → Storage
  deposit_event event = F.system_deposit_event (F.event_into event)

  unfoldable pub call_do_something : Origin → ℕ → Dispatched (Unit {0})
  unfolding deposit_event ◌>>=◌ propagate modify pure
  call_do_something origin something = do
    who ← propagate (F.ensure_signed origin)
    modify (F.put_something something)
    modify (deposit_event (something_stored something who))
    pure tt

  -- The `match` on the stored value.
  unfoldable pub increment : Option ℕ → Dispatched (Unit {0})
  unfolding ◌>>=◌ propagate modify pure
  increment none = propagate (err (F.error_into none_value))
  increment (some old) = do
    new ← propagate (ok_or (checked_add_u32 old 1) (F.error_into storage_overflow))
    modify (F.put_something new)
    pure tt

  unfoldable pub call_cause_error : Origin → Dispatched (Unit {0})
  unfolding increment ◌>>=◌ propagate gets
  call_cause_error origin = do
    _who ← propagate (F.ensure_signed origin)
    stored ← gets F.get_something
    increment stored

  -- The call that a transaction names is made with the origin of the transaction.
  unfoldable pub dispatch : Call → Origin → Dispatched (Unit {0})
  unfolding call_do_something call_cause_error
  dispatch (do_something something) origin = call_do_something origin something
  dispatch cause_error origin = call_cause_error origin

  -- A history of calls, each with its origin: the results in order, and the storage at the end.
  unfoldable pub dispatch_all :
      List (Origin × Call) → Storage → List (Result DispatchError (Unit {0})) × Storage
  dispatch_all [] s = ([], s)
  dispatch_all ((origin, call) ∷ history) s =
      let (r, t) = dispatch call origin s in let (rs, u) = dispatch_all history t in (r ∷ rs, u)
