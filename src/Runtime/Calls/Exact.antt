-- ===== src/Runtime/Calls/Exact.antt =====
-- runtime/src/lib.rs: which bytes are calls of the template pallet.
use mathlib.Core.Path.{subst}
use mathlib.Core.Option
use mathlib.Core.Option.{some-injective}
use native.Mathlib.Decide.{ℕ_discrete}
use nexusguild.Base.{
  ℕ, ◌<◌, ◌≡◌, ◌↔◌, ◌∙◌, refl, sym, ap, Option, none, some, List, [], ◌∷◌, ◌++◌, All, arith,
}
use nexusguild.Template.Dispatch.{Call, do_something, call_index}
use nexusguild.Template.Counter.{HasU32}
use nexusguild.Runtime.Calls.{
  Pallet, template, pallet_index, pallet_of_index, CallCodec, RuntimeCall, runtime_call,
  encode_call, decode_call, decode_call_of, decode_variant, encode_fields, encode_runtime_call,
  decode_runtime_call,
}
use nexusguild.Runtime.Calls.Indices.{pallet_index-found}
use nexusguild.Runtime.Calls.RoundTrip.{IsCodec, decode-encode_runtime_call}

abbrev pub AllBytes : List ℕ → Type 0
AllBytes bytes = All (λ b. b < 256) bytes

-- A number that is read from bytes is encoded by those bytes.
abbrev pub IsCanonical : CallCodec → Type 0
IsCanonical C =
    (bytes : List ℕ) (n : ℕ) (rest : List ℕ)
    → AllBytes bytes
    → C.decode_u32 bytes ≡ some (n, rest)
    → bytes ≡ C.encode_u32 n ++ rest

module _ (C : CallCodec) where
  -- A call of the template pallet among those of the runtime.
  abbrev seen : Option (RuntimeCall C × List ℕ) → Option (Call × List ℕ)
  seen none = none
  seen (some (runtime_call template call, rest)) = some (call, rest)
  seen (some (runtime_call p call, rest)) = none

  seen-template :
      (r : Option (Call × List ℕ))
      → seen (Option.map (λ (call, rest). (runtime_call template call, rest)) r) ≡ r
  seen-template none = refl
  seen-template (some (call, rest)) = refl

  seen-other :
      {A : Type 0} (f : A → RuntimeCall C × List ℕ)
      → ((a : A) → seen (some (f a)) ≡ none)
      → (r : Option A) → seen (Option.map f r) ≡ none
  seen-other f h none = refl
  seen-other f h (some a) = h a

  decode_variant-template :
      (p : Option Pallet) (bytes : List ℕ) {call : Call} {rest : List ℕ}
      → decode_variant C p bytes ≡ some (runtime_call template call, rest)
      → (p ≡ some template) × (decode_call C bytes ≡ some (call, rest))
  unfolding decode_variant decode_call_of
  decode_variant-template none bytes e = cc
  decode_variant-template (some template) bytes e =
      (refl, sym (seen-template (decode_call C bytes)) ∙ ap seen e)
  decode_variant-template (some p) bytes e =
      let unseen =
        seen-other (λ (call, rest). (runtime_call p call, rest)) (λ x. refl)
          (C.decode_pallet_call p bytes) in
      cc unseen

  -- What is read after the index of `do_something`.
  argument-exact :
      IsCanonical C
      → (bytes : List ℕ) (r : Option (ℕ × List ℕ)) {call : Call} {rest : List ℕ} → AllBytes bytes
      → C.decode_u32 bytes ≡ r
      → Option.map {B = Call × List ℕ} (λ (something, rest). (do_something something, rest)) r
        ≡ some (call, rest)
      → 0 ∷ bytes ≡ encode_call C call ++ rest
  unfolding encode_call call_index encode_fields
  argument-exact canonical bytes none small read e = cc
  argument-exact canonical bytes (some (n, left)) small read e =
      let same = some-injective _ _ e in
      rw (sym (ap (λ x. x.0) same), sym (ap (λ x. x.1) same))
        (ap (λ l. 0 ∷ l) (canonical bytes n left small read))

  decode_call-exact :
      IsCanonical C
      → (bytes : List ℕ) {call : Call} {rest : List ℕ} → AllBytes bytes
      → decode_call C bytes ≡ some (call, rest)
      → bytes ≡ encode_call C call ++ rest
  unfolding decode_call encode_call call_index
  decode_call-exact canonical [] small e = cc
  decode_call-exact canonical (b ∷ bytes) {call} {rest} (byte, small) e = elim (ℕ_discrete b 0) [
    | yes zeroth ↦ rw zeroth (
        argument-exact canonical bytes (C.decode_u32 bytes) small refl
          (subst (λ x. decode_call C (x ∷ bytes) ≡ some (call, rest)) zeroth e))
    | no not_zero ↦ elim (ℕ_discrete b 1) [
      | yes first ↦
          let same =
            some-injective _ _
              (subst (λ x. decode_call C (x ∷ bytes) ≡ some (call, rest)) first e) in
          rw (first, sym (ap (λ x. x.0) same), sym (ap (λ x. x.1) same)) refl
      | no not_one ↦ ground arith
    ]
  ]

module _ (C : CallCodec) (M : IsCodec C) where
  -- The bytes from which a call of the template pallet is read are exactly those that begin with
  -- its encoding, and what is left is what follows: no other bytes, numbers below 256, name such a
  -- call. The argument is a `u32`, the codec reads back what it encodes, and a `u32` is read from
  -- its own encoding alone.
  pub decode_runtime_call-template_iff :
      IsCanonical C
      → (bytes : List ℕ) (call : Call) (rest : List ℕ) → AllBytes bytes
      → HasU32 call
      → (decode_runtime_call C bytes ≡ some (runtime_call template call, rest))
        ↔ (bytes ≡ encode_runtime_call C (runtime_call template call) ++ rest)
  unfolding decode_runtime_call encode_runtime_call pallet_index
  decode_runtime_call-template_iff canonical bytes call rest small word = (
    only bytes small,
    λ same. rw same (decode-encode_runtime_call C M (runtime_call template call) rest word),
  )
    where
      only :
          (bytes : List ℕ)
          → AllBytes bytes
          → decode_runtime_call C bytes ≡ some (runtime_call template call, rest)
          → bytes ≡ encode_runtime_call C (runtime_call template call) ++ rest
      only [] small e = cc
      only (b ∷ bytes) (byte, small) e =
          let (found, read) = decode_variant-template C (pallet_of_index b) bytes e in
          rw (sym (pallet_index-found b template found))
            (ap (λ l. 7 ∷ l) (decode_call-exact C canonical bytes small read))
