-- ===== src/Runtime/Aggregates/Reasons.antt =====
-- runtime/src/lib.rs with pallets/template/src/lib.rs: the errors of template calls, as the runtime
-- reports them, and their reasons.
use nexusguild.Base.{
  ℕ, ◌<◌, ◌≤◌, ◌≡◌, ◌↔◌, ◌∙◌, refl, sym, ap, inl, inr, Option, none, some, ok, err, Result-cases,
  err-inj, ok-ne-err, [], ◌∷◌, arith,
}
use native.Mathlib.Decide.{dec_lt}
use nexusguild.Base.Words.{u32_max}
use nexusguild.Template.Frame.{Frame, none_value, storage_overflow}
use nexusguild.Template.Dispatch.{Call, do_something, cause_error, increment, dispatch}
use nexusguild.Runtime.Calls.{template, CallCodec, runtime_call}
use nexusguild.Runtime.Calls.Execution.{OtherPallets, dispatch_runtime_call}
use nexusguild.Runtime.Aggregates.{SystemApi, IsSystem, template_error, runtime_frame}

module _ (S : SystemApi) where
  open S use {Origin, Storage, DispatchError, ensure_signed, get_something}

  -- Why a call with this origin fails with this error: the origin is not signed; there is no value
  -- to increment; or the value is at its maximum.
  pub data Explained (origin : Origin) (s : Storage) : Call → DispatchError → Type 0 where
    not_signed :
        {call : Call}
        → ensure_signed origin ≡ err S.bad_origin
        → Explained origin s call S.bad_origin
    no_value :
        {who : S.AccountId}
        → ensure_signed origin ≡ ok who
        → get_something s ≡ none
        → Explained origin s cause_error
            (S.module_error (record { index = 7; error = 0 ∷ 0 ∷ 0 ∷ 0 ∷ [] }))
    overflow :
        {who : S.AccountId} {value : ℕ}
        → ensure_signed origin ≡ ok who
        → get_something s ≡ some value
        → u32_max ≤ value
        → Explained origin s cause_error
            (S.module_error (record { index = 7; error = 1 ∷ 0 ∷ 0 ∷ 0 ∷ [] }))

-- What a call comes to, once its origin and the stored value are known.
module _ (F : Frame) where
  open F use {Origin, Storage, AccountId, DispatchError, ensure_signed, get_something}

  dispatch-refused :
      (call : Call) (origin : Origin) (s : Storage) {e : DispatchError}
      → ensure_signed origin ≡ err e
      → (dispatch F call origin s).0 ≡ err e
  unfolding dispatch
  dispatch-refused call origin s h = ground arith

  dispatch-do_something :
      (n : ℕ) (origin : Origin) (s : Storage) {who : AccountId}
      → ensure_signed origin ≡ ok who
      → (dispatch F (do_something n) origin s).0 ≡ ok tt
  unfolding dispatch
  dispatch-do_something n origin s h = ground arith

  dispatch-cause_error :
      (origin : Origin) (s : Storage) {who : AccountId}
      → ensure_signed origin ≡ ok who
      → (dispatch F cause_error origin s).0 ≡ (increment F (get_something s) s).0
  unfolding dispatch
  dispatch-cause_error origin s h = ground arith

  increment_unset : (s : Storage) → (increment F none s).0 ≡ err (F.error_into none_value)
  unfolding increment
  increment_unset s = ground arith

  increment_below : (v : ℕ) (s : Storage) → v < u32_max → (increment F (some v) s).0 ≡ ok tt
  unfolding increment
  increment_below v s h = ground arith

  increment_full :
      (v : ℕ) (s : Storage)
      → u32_max ≤ v
      → (increment F (some v) s).0 ≡ err (F.error_into storage_overflow)
  unfolding increment
  increment_full v s h = ground arith

module _ (S : SystemApi) (L : IsSystem S) where
  open S use {Origin, Storage, DispatchError, ensure_signed, get_something}

  abbrev F : Frame
  F = runtime_frame S

  increment-Explained :
      (origin : Origin) (s : Storage) {who : S.AccountId} (stored : Option ℕ) {e : DispatchError}
      → ensure_signed origin ≡ ok who
      → get_something s ≡ stored
      → (increment F stored s).0 ≡ err e
      → Explained S origin s cause_error e
  unfolding template_error
  increment-Explained origin s none signed unset h =
      rw (err-inj (sym h ∙ increment_unset F s)) (no_value signed unset)
  increment-Explained origin s (some v) {e} signed stored h = elim (dec_lt v u32_max) [
    | yes below ↦ absurd (ok-ne-err (sym (increment_below F v s below) ∙ h))
    | no not_below ↦
        let full : u32_max ≤ v = omega arith in
        rw (err-inj (sym h ∙ increment_full F v s full)) (overflow signed stored full)
  ]

  signed-Explained :
      (call : Call) (origin : Origin) (s : Storage) {who : S.AccountId} {e : DispatchError}
      → ensure_signed origin ≡ ok who
      → (dispatch F call origin s).0 ≡ err e
      → Explained S origin s call e
  signed-Explained (do_something n) origin s signed h =
      absurd (ok-ne-err (sym (dispatch-do_something F n origin s signed) ∙ h))
  signed-Explained cause_error origin s signed h =
      increment-Explained origin s (get_something s) signed refl
        (sym (dispatch-cause_error F origin s signed) ∙ h)

  dispatch-Explained :
      (call : Call) (origin : Origin) (s : Storage) {e : DispatchError}
      → (dispatch F call origin s).0 ≡ err e
      → Explained S origin s call e
  dispatch-Explained call origin s h = elim (Result-cases (ensure_signed origin)) [
    | inr (d, refused) ↦
        let bad : d ≡ S.bad_origin = L.ensure_signed-error origin d refused in
        rw (err-inj (sym h ∙ dispatch-refused F call origin s refused) ∙ bad)
          (not_signed (refused ∙ ap err bad))
    | inl (who, signed) ↦ signed-Explained call origin s signed h
  ]

  Explained-dispatch :
      (call : Call) (origin : Origin) (s : Storage) {e : DispatchError}
      → Explained S origin s call e
      → (dispatch F call origin s).0 ≡ err e
  unfolding template_error
  Explained-dispatch call origin s (not_signed refused) = dispatch-refused F call origin s refused
  Explained-dispatch call origin s (no_value signed unset) =
      dispatch-cause_error F origin s signed ∙ rw unset (increment_unset F s)
  Explained-dispatch call origin s (overflow {value} signed stored full) =
      dispatch-cause_error F origin s signed ∙ rw stored (increment_full F value s full)

  -- A template call, made through the runtime, returns an error exactly for one of three reasons:
  -- `BadOrigin` if its origin is not signed; the module error of index 7 with the bytes 0 0 0 0 if
  -- it is a signed `cause_error` and no value is stored; and that with the bytes 1 0 0 0 if it is
  -- one and the stored value is `u32::MAX` or more. The condition is what FRAME documents of the
  -- system, of which it needs that `BadOrigin` is the only error of `ensure_signed`.
  pub dispatch_runtime_call-Explained_iff :
      (C : CallCodec) (O : OtherPallets C F) (call : Call) (origin : Origin) (s : Storage)
      (e : DispatchError)
      → ((dispatch_runtime_call C F O (runtime_call template call) origin s).0 ≡ err e)
        ↔ Explained S origin s call e
  unfolding dispatch_runtime_call
  dispatch_runtime_call-Explained_iff C O call origin s e =
      (dispatch-Explained call origin s, Explained-dispatch call origin s)
