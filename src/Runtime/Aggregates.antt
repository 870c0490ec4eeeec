-- ===== src/Runtime/Aggregates.antt =====
-- runtime/src/lib.rs: the aggregate types of events and errors that `#[frame_support::runtime]`
-- makes of the pallets and their indices, and the template pallet over them.
use nexusguild.Base.{ℕ, ◌≡◌, ◌≢◌, Option, some, Result, err, List, [], ◌∷◌, ◌++◌}
use nexusguild.Template.Frame.{Frame, Event, Error, none_value, storage_overflow}
use nexusguild.Runtime.Calls.{Pallet, template, pallet_index}
pub mod Laws
pub mod Reasons
pub mod Log
pub mod Served
pub mod Example
mod Tests

-- `RuntimeEvent`: a variant for each pallet, with an event of it. The events of the pallets of
-- FRAME are a parameter; for a pallet without events the type is empty.
abbrev pub EventOf : (Pallet → Type 0) → Type 0 → Pallet → Type 0
EventOf PalletEvent AccountId template = Event AccountId
EventOf PalletEvent AccountId p = PalletEvent p

pub data RuntimeEvent (PalletEvent : Pallet → Type 0) (AccountId : Type 0) : Type 0 where
  runtime_event :
      (p : Pallet) → EventOf PalletEvent AccountId p → RuntimeEvent PalletEvent AccountId

-- `ModuleError` of `sp_runtime`: the index of a pallet, and the encoding of one of its errors in
-- four bytes.
pub record ModuleError : Type 0 where
  pub index : ℕ
  pub error : List ℕ

-- The variants of `Error<T>` in the order of their declaration.
unfoldable pub error_index : Error → ℕ
error_index none_value = 0
error_index storage_overflow = 1

-- An error of the template pallet among those of the runtime.
unfoldable pub template_error : Error → ModuleError
unfolding error_index pallet_index
template_error e = record { index = pallet_index template; error = error_index e ∷ 0 ∷ 0 ∷ 0 ∷ [] }

-- What `frame_system` and `sp_runtime` provide, for the pallets of this runtime: the errors of a
-- dispatch, of which some are errors of a pallet, the origins, and the storage.
pub record SystemApi : Type 1 where
  pub PalletEvent : Pallet → Type 0
  pub AccountId : Type 0
  pub Origin : Type 0
  pub DispatchError : Type 0
  pub Storage : Type 0
  pub bad_origin : DispatchError
  pub module_error : ModuleError → DispatchError
  pub ensure_signed : Origin → Result DispatchError AccountId
  pub get_something : Storage → Option ℕ
  pub put_something : ℕ → Storage → Storage
  pub deposit_event : RuntimeEvent PalletEvent AccountId → Storage → Storage
  pub events : Storage → List (RuntimeEvent PalletEvent AccountId)
  pub block_number : Storage → ℕ

-- What they document of it: an error of a pallet holds its index and encoding, `BadOrigin` is none
-- of them and the only error of `ensure_signed`, and the storage items are apart.
pub record IsSystem (S : SystemApi) : Type 0 where
  pub module_error-injective : (d e : ModuleError) → S.module_error d ≡ S.module_error e → d ≡ e
  pub bad_origin_differs : (d : ModuleError) → S.bad_origin ≢ S.module_error d
  pub ensure_signed-error :
      (o : S.Origin) (e : S.DispatchError) → S.ensure_signed o ≡ err e → e ≡ S.bad_origin
  pub get-put : (n : ℕ) (s : S.Storage) → S.get_something (S.put_something n s) ≡ some n
  pub events-put : (n : ℕ) (s : S.Storage) → S.events (S.put_something n s) ≡ S.events s
  pub block-put : (n : ℕ) (s : S.Storage) → S.block_number (S.put_something n s) ≡ S.block_number s
  pub get-deposit :
      (e : RuntimeEvent S.PalletEvent S.AccountId) (s : S.Storage)
      → S.get_something (S.deposit_event e s) ≡ S.get_something s
  pub block-deposit :
      (e : RuntimeEvent S.PalletEvent S.AccountId) (s : S.Storage)
      → S.block_number (S.deposit_event e s) ≡ S.block_number s
  pub events-deposit :
      (e : RuntimeEvent S.PalletEvent S.AccountId) (s : S.Storage)
      → S.block_number s ≢ 0
      → S.events (S.deposit_event e s) ≡ S.events s ++ e ∷ []
  pub events-deposit_genesis :
      (e : RuntimeEvent S.PalletEvent S.AccountId) (s : S.Storage)
      → S.block_number s ≡ 0
      → S.events (S.deposit_event e s) ≡ S.events s

-- The template pallet in this runtime: its events and errors are converted by the variant and the
-- index of the pallet.
abbrev pub runtime_frame : SystemApi → Frame
runtime_frame S = record {
  AccountId = S.AccountId;
  Origin = S.Origin;
  RuntimeEvent = RuntimeEvent S.PalletEvent S.AccountId;
  DispatchError = S.DispatchError;
  Storage = S.Storage;
  ensure_signed = S.ensure_signed;
  event_into = λ e. runtime_event template e;
  error_into = λ e. S.module_error (template_error e);
  get_something = S.get_something;
  put_something = S.put_something;
  system_deposit_event = S.deposit_event;
  events = S.events;
  block_number = S.block_number;
}
