-- ===== src/Template/Frame.antt =====
-- pallets/template/src/lib.rs: the event, the errors, and what the pallet takes from FRAME.
use nexusguild.Base.{ℕ, ◌≡◌, ◌≢◌, Option, some, Result, err, List, [], ◌∷◌, ◌++◌}

-- `Event<T>`, over the account identifiers of the configuration.
pub data Event (AccountId : Type 0) : Type 0 where
  something_stored : ℕ → AccountId → Event AccountId

-- `Error<T>`
pub data Error : Type 0 where
  none_value storage_overflow : Error

-- What `frame_system::Config` and the macros of FRAME provide: `ensure_signed`, the conversions
-- `into` of the pallet's event and errors, the value of `Something` in the storage, and
-- `frame_system::Pallet::deposit_event`.
pub record Frame : Type 1 where
  pub AccountId : Type 0
  pub Origin : Type 0
  pub RuntimeEvent : Type 0
  pub DispatchError : Type 0
  pub Storage : Type 0
  pub ensure_signed : Origin → Result DispatchError AccountId
  pub event_into : Event AccountId → RuntimeEvent
  pub error_into : Error → DispatchError
  pub get_something : Storage → Option ℕ
  pub put_something : ℕ → Storage → Storage
  pub system_deposit_event : RuntimeEvent → Storage → Storage
  pub events : Storage → List RuntimeEvent
  pub block_number : Storage → ℕ

-- What FRAME documents of them: a value that was put is read back, the event log and the block
-- number are other storage items, an event is appended to the log except in the genesis block,
-- and the errors of a pallet are told apart, also from `BadOrigin`.
pub record IsLawful (F : Frame) : Type 0 where
  pub get-put : (n : ℕ) (s : F.Storage) → F.get_something (F.put_something n s) ≡ some n
  pub events-put : (n : ℕ) (s : F.Storage) → F.events (F.put_something n s) ≡ F.events s
  pub block-put : (n : ℕ) (s : F.Storage) → F.block_number (F.put_something n s) ≡ F.block_number s
  pub get-deposit :
      (e : F.RuntimeEvent) (s : F.Storage)
      → F.get_something (F.system_deposit_event e s) ≡ F.get_something s
  pub block-deposit :
      (e : F.RuntimeEvent) (s : F.Storage)
      → F.block_number (F.system_deposit_event e s) ≡ F.block_number s
  pub events-deposit :
      (e : F.RuntimeEvent) (s : F.Storage)
      → F.block_number s ≢ 0
      → F.events (F.system_deposit_event e s) ≡ F.events s ++ e ∷ []
  pub events-deposit_genesis :
      (e : F.RuntimeEvent) (s : F.Storage)
      → F.block_number s ≡ 0
      → F.events (F.system_deposit_event e s) ≡ F.events s
  pub errors_differ : F.error_into none_value ≢ F.error_into storage_overflow
  pub origin_error_differs : (o : F.Origin) (e : Error) → F.ensure_signed o ≢ err (F.error_into e)
