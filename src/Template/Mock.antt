-- ===== src/Template/Mock.antt =====
-- pallets/template/src/mock.rs: a runtime with plain data for the accounts, origins and storage, as
-- the tests of the pallet use it. It shows that what the pallet takes from FRAME can be met.
use nexusguild.Base.{
  ℕ, ◌==◌, ◌≡◌, ◌≢◌, refl, if◌then◌else◌, Option, none, some, Result, ok, err, List, [], ◌∷◌, ◌++◌,
  arith,
}
use nexusguild.Template.Frame.{Frame, IsLawful, Event, Error, none_value, storage_overflow}

-- An origin of the runtime: root, none, or an account that signed.
pub data Origin : Type 0 where
  root unsigned : Origin
  signed : ℕ → Origin

pub data DispatchError : Type 0 where
  bad_origin : DispatchError
  module_error : Error → DispatchError

pub record Storage : Type 0 where
  pub something : Option ℕ
  pub log : List (Event ℕ)
  pub block : ℕ

abbrev signer : Origin → Result DispatchError ℕ
signer (signed who) = ok who
signer root = err bad_origin
signer unsigned = err bad_origin

-- Nothing is logged in the genesis block.
abbrev pub deposit : Event ℕ → Storage → Storage
deposit e s = if s.block == 0 then s else record s { log = s.log ++ e ∷ [] }

abbrev pub test : Frame
test = record {
  AccountId = ℕ;
  Origin = Origin;
  RuntimeEvent = Event ℕ;
  DispatchError = DispatchError;
  Storage = Storage;
  ensure_signed = signer;
  event_into = λ e. e;
  error_into = module_error;
  get_something = λ s. s.something;
  put_something = λ n s. record s { something = some n };
  system_deposit_event = deposit;
  events = λ s. s.log;
  block_number = λ s. s.block;
}

get-deposit : (e : Event ℕ) (s : Storage) → (deposit e s).something ≡ s.something
get-deposit e s = ground arith

block-deposit : (e : Event ℕ) (s : Storage) → (deposit e s).block ≡ s.block
block-deposit e s = ground arith

log-deposit : (e : Event ℕ) (s : Storage) → s.block ≢ 0 → (deposit e s).log ≡ s.log ++ e ∷ []
log-deposit e s h = ground arith

log-deposit_genesis : (e : Event ℕ) (s : Storage) → s.block ≡ 0 → (deposit e s).log ≡ s.log
log-deposit_genesis e s h = ground arith

errors_differ : module_error none_value ≢ module_error storage_overflow
errors_differ = ground arith

signer-ne-module_error : (o : Origin) (e : Error) → signer o ≢ err (module_error e)
signer-ne-module_error root e = ground arith
signer-ne-module_error unsigned e = ground arith
signer-ne-module_error (signed who) e = ground arith

pub test-IsLawful : IsLawful test
test-IsLawful = record {
  get-put = λ n s. refl;
  events-put = λ n s. refl;
  block-put = λ n s. refl;
  get-deposit = get-deposit;
  block-deposit = block-deposit;
  events-deposit = log-deposit;
  events-deposit_genesis = log-deposit_genesis;
  errors_differ = errors_differ;
  origin_error_differs = signer-ne-module_error;
}

-- `new_test_ext()`, at a block.
abbrev pub new_test_ext : ℕ → Storage
new_test_ext n = record { something = none; log = []; block = n }
