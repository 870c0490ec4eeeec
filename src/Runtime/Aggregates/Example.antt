-- ===== src/Runtime/Aggregates/Example.antt =====
-- runtime/src/lib.rs: a system of plain data for the runtime, and pallets of which one has calls.
use native.Mathlib.Decide.{ℕ_discrete}
use nexusguild.Base.{
  ap, ◌∙◌, append-nil, ℕ, ◌==◌, ◌≡◌, ◌≢◌, refl, if◌then◌else◌, Option, none, some, Result, ok, err,
  List, [], ◌∷◌, ◌++◌, arith, err-inj, sym,
}
use nexusguild.Template.Mock.{Origin, root, unsigned, signed}
use nexusguild.Runtime.Calls.{Pallet, balances, CallCodec}
use nexusguild.Runtime.Calls.Example.{codec, take_word-words}
use nexusguild.Runtime.Calls.Execution.{OtherPallets, IsApart}
use nexusguild.Runtime.Aggregates.{
  RuntimeEvent, runtime_event, ModuleError, SystemApi, IsSystem, runtime_frame,
}
use nexusguild.Runtime.Aggregates.Log.{stored_events, stored_events-append, LogsApart}

-- The events of the other pallets are numbers, and so are the accounts.
abbrev NumberEvent : Pallet → Type 0
NumberEvent p = ℕ

pub data DispatchError : Type 0 where
  bad_origin : DispatchError
  module_error : ModuleError → DispatchError

pub record Storage : Type 0 where
  pub something : Option ℕ
  pub log : List (RuntimeEvent NumberEvent ℕ)
  pub block : ℕ

abbrev signer : Origin → Result DispatchError ℕ
signer (signed who) = ok who
signer root = err bad_origin
signer unsigned = err bad_origin

abbrev pub deposit : RuntimeEvent NumberEvent ℕ → Storage → Storage
deposit e s = if s.block == 0 then s else record s { log = s.log ++ e ∷ [] }

abbrev pub system_api : SystemApi
system_api = record {
  PalletEvent = NumberEvent;
  AccountId = ℕ;
  Origin = Origin;
  DispatchError = DispatchError;
  Storage = Storage;
  bad_origin = bad_origin;
  module_error = module_error;
  ensure_signed = signer;
  get_something = λ s. s.something;
  put_something = λ n s. record s { something = some n };
  deposit_event = deposit;
  events = λ s. s.log;
  block_number = λ s. s.block;
}

signer-error : (o : Origin) (e : DispatchError) → signer o ≡ err e → e ≡ bad_origin
signer-error root e h = sym (err-inj h)
signer-error unsigned e h = sym (err-inj h)
signer-error (signed who) e h = cc

get-deposit : (e : RuntimeEvent NumberEvent ℕ) (s : Storage) → (deposit e s).something ≡ s.something
get-deposit e s = ground arith

block-deposit : (e : RuntimeEvent NumberEvent ℕ) (s : Storage) → (deposit e s).block ≡ s.block
block-deposit e s = ground arith

log-deposit :
    (e : RuntimeEvent NumberEvent ℕ) (s : Storage)
    → s.block ≢ 0
    → (deposit e s).log ≡ s.log ++ e ∷ []
log-deposit e s h = ground arith

log-deposit_genesis :
    (e : RuntimeEvent NumberEvent ℕ) (s : Storage) → s.block ≡ 0 → (deposit e s).log ≡ s.log
log-deposit_genesis e s h = ground arith

pub system_api-IsSystem : IsSystem system_api
system_api-IsSystem = record {
  module_error-injective = λ d e h. cc;
  bad_origin_differs = λ d h. cc;
  ensure_signed-error = signer-error;
  get-put = λ n s. refl;
  events-put = λ n s. refl;
  block-put = λ n s. refl;
  get-deposit = get-deposit;
  block-deposit = block-deposit;
  events-deposit = log-deposit;
  events-deposit_genesis = log-deposit_genesis;
}

-- `Balances` has one call, with a number that it logs.
abbrev pub NumberCall : Pallet → Type 0
NumberCall balances = ℕ
NumberCall p = ⊥

abbrev decode_number : (p : Pallet) → List ℕ → Option (NumberCall p × List ℕ)
decode_number balances (n ∷ bytes) = some (n, bytes)
decode_number p bytes = none

abbrev encode_number : (p : Pallet) → NumberCall p → List ℕ
encode_number balances n = n ∷ []
encode_number p call = absurd call

abbrev pub numbers : CallCodec
numbers = record codec {
  PalletCall = NumberCall;
  encode_pallet_call = encode_number;
  decode_pallet_call = decode_number;
}

abbrev log_number :
    (p : Pallet) → NumberCall p → Origin → Storage → Result DispatchError (Unit {0}) × Storage
log_number balances n origin s = (ok tt, deposit (runtime_event balances n) s)
log_number p call origin s = (ok tt, s)

abbrev pub others : OtherPallets numbers (runtime_frame system_api)
others = record { dispatch_pallet_call = log_number }

-- The origins but the root; there is no sudo key.
abbrev pub Ordinary : Origin → Type 0
Ordinary root = ⊥
Ordinary origin = Unit

balances-logged :
    (n : ℕ) (s : Storage)
    → stored_events system_api (deposit (runtime_event balances n) s).log
      ≡ stored_events system_api s.log
balances-logged n s = elim (ℕ_discrete s.block 0) [
  | yes e ↦ ap (stored_events system_api) (log-deposit_genesis (runtime_event balances n) s e)
  | no later ↦
      ap (stored_events system_api) (log-deposit (runtime_event balances n) s later)
      ∙ stored_events-append system_api s.log (runtime_event balances n ∷ [])
      ∙ append-nil (stored_events system_api s.log)
]

log_number-logged :
    (p : Pallet) (call : NumberCall p) (origin : Origin) (s : Storage)
    → Ordinary origin
    → stored_events system_api (log_number p call origin s).1.log ≡ stored_events system_api s.log
log_number-logged balances n origin s o = balances-logged n s
log_number-logged p call origin s o = refl

log_number-block :
    (p : Pallet) (call : NumberCall p) (origin : Origin) (s : Storage)
    → Ordinary origin
    → (log_number p call origin s).1.block ≡ s.block
log_number-block balances n origin s o = block-deposit (runtime_event balances n) s
log_number-block p call origin s o = refl

pub others-LogsApart : LogsApart system_api numbers others Ordinary
others-LogsApart = record { logged = log_number-logged; same_block = log_number-block }

log_number-left :
    (p : Pallet) (call : NumberCall p) (origin : Origin) (s : Storage)
    → Ordinary origin
    → (log_number p call origin s).1.something ≡ s.something
log_number-left balances n origin s o = get-deposit (runtime_event balances n) s
log_number-left p call origin s o = refl

pub others-IsApart : IsApart numbers (runtime_frame system_api) others Ordinary
others-IsApart = record { left = log_number-left; words = take_word-words }
