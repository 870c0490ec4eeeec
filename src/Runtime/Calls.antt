-- ===== src/Runtime/Calls.antt =====
-- runtime/src/lib.rs: the pallets of the runtime with their indices, and the encoding of the calls,
-- which these and the call indices of the template pallet (pallets/template/src/lib.rs) fix.
use nexusguild.Base.{ℕ, ◌==◌, if◌then◌else◌, Option, none, some, List, [], ◌∷◌, map}
use mathlib.Core.Option
use nexusguild.Template.Dispatch.{Call, do_something, cause_error, call_index}
pub mod RoundTrip
mod Indices
pub mod Exact
pub mod Refinement
pub mod Interleaving
pub mod Counting
pub mod Execution
pub mod Example
mod Tests

-- The pallets, in the order of their declaration.
pub data Pallet : Type 0 where
  system timestamp aura grandpa balances transaction_payment sudo template : Pallet

abbrev pub pallets : List Pallet
pallets =
    system ∷ timestamp ∷ aura ∷ grandpa ∷ balances ∷ transaction_payment ∷ sudo ∷ template ∷ []

-- `#[runtime::pallet_index(…)]`
unfoldable pub pallet_index : Pallet → ℕ
pallet_index system = 0
pallet_index timestamp = 1
pallet_index aura = 2
pallet_index grandpa = 3
pallet_index balances = 4
pallet_index transaction_payment = 5
pallet_index sudo = 6
pallet_index template = 7

-- The calls of the pallets of FRAME, and the codec: bytes are numbers, and a decoder gives what is
-- left of its input. For a pallet without calls the type is empty.
pub record CallCodec : Type 1 where
  pub PalletCall : Pallet → Type 0
  pub encode_pallet_call : (p : Pallet) → PalletCall p → List ℕ
  pub decode_pallet_call : (p : Pallet) → List ℕ → Option (PalletCall p × List ℕ)
  pub encode_u32 : ℕ → List ℕ
  pub decode_u32 : List ℕ → Option (ℕ × List ℕ)

abbrev find_pallet : ℕ → List Pallet → Option Pallet
find_pallet b [] = none
find_pallet b (p ∷ ps) =
    let later = find_pallet b ps in if b == pallet_index p then some p else later

-- The pallet of the index.
unfoldable pub pallet_of_index : ℕ → Option Pallet
pallet_of_index b = find_pallet b pallets

module _ (C : CallCodec) where
  open C use {PalletCall, encode_pallet_call, decode_pallet_call, encode_u32, decode_u32}

  abbrev pub CallOf : Pallet → Type 0
  CallOf template = Call
  CallOf p = PalletCall p

  -- `RuntimeCall`: a variant for each pallet, with a call of it.
  pub data RuntimeCall : Type 0 where
    runtime_call : (p : Pallet) → CallOf p → RuntimeCall

  encode_fields : Call → List ℕ
  encode_fields (do_something something) = encode_u32 something
  encode_fields cause_error = []

  -- A variant of an enum is encoded as its index followed by its fields.
  unfoldable pub encode_call : Call → List ℕ
  unfolding encode_fields
  encode_call call = call_index call ∷ encode_fields call

  unfoldable pub decode_call : List ℕ → Option (Call × List ℕ)
  decode_call [] = none
  decode_call (b ∷ bytes) =
      if b == call_index (do_something 0)
      then Option.map (λ (something, rest). (do_something something, rest)) (decode_u32 bytes)
      else if b == call_index cause_error
      then some (cause_error, bytes)
      else none

  encode_call_of : (p : Pallet) → CallOf p → List ℕ
  unfolding encode_call
  encode_call_of template call = encode_call call
  encode_call_of p call = encode_pallet_call p call

  unfoldable pub encode_runtime_call : RuntimeCall → List ℕ
  unfolding encode_call_of
  encode_runtime_call (runtime_call p call) = pallet_index p ∷ encode_call_of p call

  decode_call_of : (p : Pallet) → List ℕ → Option (RuntimeCall × List ℕ)
  decode_call_of template bytes =
      Option.map (λ (call, rest). (runtime_call template call, rest)) (decode_call bytes)
  decode_call_of p bytes =
      Option.map (λ (call, rest). (runtime_call p call, rest)) (decode_pallet_call p bytes)

  decode_variant : Option Pallet → List ℕ → Option (RuntimeCall × List ℕ)
  decode_variant none bytes = none
  decode_variant (some p) bytes = decode_call_of p bytes

  unfoldable pub decode_runtime_call : List ℕ → Option (RuntimeCall × List ℕ)
  unfolding decode_variant decode_call_of
  decode_runtime_call [] = none
  decode_runtime_call (b ∷ bytes) = decode_variant (pallet_of_index b) bytes
