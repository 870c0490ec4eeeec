-- ===== src/Runtime/Calls/RoundTrip.antt =====
-- runtime/src/lib.rs: a call is read back from its encoding.
use nexusguild.Base.{ℕ, ◌≤◌, ◌≡◌, refl, some, List, ◌++◌}
use nexusguild.Base.Words.{u32_max}
use nexusguild.Template.Dispatch.{Call, do_something, cause_error, call_index}
use nexusguild.Template.Counter.{HasU32}
use nexusguild.Runtime.Calls.{
  Pallet, template, pallet_index, pallet_of_index, CallCodec, RuntimeCall, runtime_call,
  encode_call, decode_call, encode_runtime_call, decode_runtime_call,
}

-- The codec of the arguments: what is encoded is read back, whatever follows it.
pub record IsCodec (C : CallCodec) : Type 0 where
  pub decode-encode_u32 :
      (n : ℕ) (rest : List ℕ) → n ≤ u32_max → C.decode_u32 (C.encode_u32 n ++ rest) ≡ some (n, rest)
  pub decode-encode_pallet_call :
      (p : Pallet) (call : C.PalletCall p) (rest : List ℕ)
      → C.decode_pallet_call p (C.encode_pallet_call p call ++ rest) ≡ some (call, rest)

module _ (C : CallCodec) where
  -- The arguments of a template call are `u32`.
  abbrev pub HasWords : RuntimeCall C → Type 0
  HasWords (runtime_call template call) = HasU32 call
  HasWords (runtime_call p call) = Unit

module _ (C : CallCodec) (L : IsCodec C) where
  decode-encode_call :
      (call : Call) (rest : List ℕ)
      → HasU32 call
      → decode_call C (encode_call C call ++ rest) ≡ some (call, rest)
  unfolding decode_call encode_call call_index
  decode-encode_call (do_something n) rest h = rw (L.decode-encode_u32 n rest h)
  decode-encode_call cause_error rest h = refl

  -- Every call of the runtime is read back from its encoding, with what follows it, given that the
  -- argument of a template call is a `u32` and that the calls of the other pallets and `u32` are
  -- read back from theirs.
  pub decode-encode_runtime_call :
      (call : RuntimeCall C) (rest : List ℕ)
      → HasWords C call
      → decode_runtime_call C (encode_runtime_call C call ++ rest) ≡ some (call, rest)
  unfolding decode_runtime_call encode_runtime_call pallet_of_index pallet_index
  decode-encode_runtime_call (runtime_call template call) rest h =
      rw (decode-encode_call call rest h)
  decode-encode_runtime_call (runtime_call p call) rest h =
      rw (L.decode-encode_pallet_call p call rest)
