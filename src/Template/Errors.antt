-- ===== src/Template/Errors.antt =====
-- pallets/template/src/lib.rs: when a call fails, and what a failed call leaves.
use nexusguild.Base.{ℕ, ◌<◌, ◌≤◌, ◌≡◌, refl, ◌↔◌, Option, none, some, ok, err, arith}
use nexusguild.Base.Words.{u32_max}
use nexusguild.Template.Frame.{Frame, IsLawful, none_value, storage_overflow}
use nexusguild.Template.Dispatch.{increment, call_cause_error, dispatch, Call}

-- A call that returns an error, whatever the error and the origin, leaves the whole storage as it
-- was.
pub dispatch_error_unchanged :
    (F : Frame) (call : Call) (origin : F.Origin) (s : F.Storage) {e : F.DispatchError}
    → (dispatch F call origin s).0 ≡ err e
    → (dispatch F call origin s).1 ≡ s
unfolding dispatch
dispatch_error_unchanged F call origin s h = ground arith

module _ (F : Frame) (L : IsLawful F) where
  open F use {Origin, AccountId, Storage, error_into, get_something, ensure_signed}

  increment-none_value_iff :
      (stored : Option ℕ) (s : Storage)
      → ((increment F stored s).0 ≡ err (error_into none_value)) ↔ (stored ≡ none)
  unfolding increment
  increment-none_value_iff none s = ground arith
  increment-none_value_iff (some n) s = ground (arith, L.errors_differ)

  increment-storage_overflow_iff :
      (stored : Option ℕ) (s : Storage)
      → ((increment F stored s).0 ≡ err (error_into storage_overflow))
        ↔ ((n : ℕ) × (stored ≡ some n) × (u32_max ≤ n))
  unfolding increment
  increment-storage_overflow_iff none s =
      (λ h. absurd (ground (arith, L.errors_differ)), λ (n, p, q). cc)
  increment-storage_overflow_iff (some n) s =
      (λ h. (n, refl, ground arith), λ (m, p, q). ground arith)

  increment-ok_iff :
      (stored : Option ℕ) (s : Storage)
      → ((increment F stored s).0 ≡ ok tt) ↔ ((n : ℕ) × (stored ≡ some n) × (n < u32_max))
  unfolding increment
  increment-ok_iff none s = (λ h. cc, λ (n, p, q). cc)
  increment-ok_iff (some n) s = (λ h. (n, refl, ground arith), λ (m, p, q). ground arith)

  pub cause_error-increment :
      (origin : Origin) (s : Storage) {who : AccountId}
      → ensure_signed origin ≡ ok who
      → call_cause_error F origin s ≡ increment F (get_something s) s
  unfolding call_cause_error
  cause_error-increment origin s h = ground arith

  -- `cause_error` with a signed origin returns `NoneValue` exactly when no value is stored,
  -- `StorageOverflow` exactly when the stored value is `u32::MAX` or more, and `Ok(())` exactly
  -- when a value below `u32::MAX` is stored.
  pub cause_error_outcomes :
      (origin : Origin) (s : Storage) {who : AccountId}
      → ensure_signed origin ≡ ok who
      → (((call_cause_error F origin s).0 ≡ err (error_into none_value)) ↔ (get_something s ≡ none))
        × (((call_cause_error F origin s).0 ≡ err (error_into storage_overflow))
            ↔ ((n : ℕ) × (get_something s ≡ some n) × (u32_max ≤ n)))
        × (((call_cause_error F origin s).0 ≡ ok tt)
            ↔ ((n : ℕ) × (get_something s ≡ some n) × (n < u32_max)))
  cause_error_outcomes origin s h = rw (cause_error-increment origin s h) (
    increment-none_value_iff (get_something s) s,
    increment-storage_overflow_iff (get_something s) s,
    increment-ok_iff (get_something s) s,
  )
