-- ===== src/Template/Repeat.antt =====
-- pallets/template/src/lib.rs: `cause_error` called again and again on a stored value.
use nexusguild.Base.{
  ℕ, zero, suc, ◌+◌, ◌-◌, ◌≤◌, ◌<◌, ◌≡◌, ◌∙◌, ap, min, some, Result, ok, err, List, ◌∷◌, ◌++◌,
  replicate, arith,
}
use native.Mathlib.Decide.{dec_lt}
use nexusguild.Base.Words.{u32_max}
use nexusguild.Template.Frame.{Frame, IsLawful, storage_overflow}
use nexusguild.Template.Dispatch.{Call, cause_error, dispatch, dispatch_all}

module _ (F : Frame) where
  open F use {Origin, DispatchError}

  -- The same origin calls `cause_error` n times.
  abbrev pub calls : ℕ → Origin → List (Origin × Call)
  calls n origin = replicate n (origin, cause_error)

  -- n calls on a stored value v: the first ones succeed, the others overflow.
  abbrev pub outcomes : ℕ → ℕ → List (Result DispatchError (Unit {0}))
  outcomes n v =
      replicate (min n (u32_max - v)) (ok tt)
      ++ replicate (n - (u32_max - v)) (err (F.error_into storage_overflow))

module _ (F : Frame) (L : IsLawful F) where
  open F use {Origin, AccountId, DispatchError, Storage, get_something, ensure_signed}

  pub below_max :
      (origin : Origin) (s : Storage) {who : AccountId} {v : ℕ}
      → ensure_signed origin ≡ ok who
      → get_something s ≡ some v
      → v < u32_max
      → ((dispatch F cause_error origin s).0 ≡ ok tt)
        × (get_something (dispatch F cause_error origin s).1 ≡ some (v + 1))
  unfolding dispatch
  below_max origin s {v} signed stored h = ground (arith, L.get-put (v + 1) s)

  pub at_max :
      (origin : Origin) (s : Storage) {who : AccountId} {v : ℕ}
      → ensure_signed origin ≡ ok who
      → get_something s ≡ some v
      → v ≡ u32_max
      → dispatch F cause_error origin s ≡ (err (F.error_into storage_overflow), s)
  unfolding dispatch
  at_max origin s signed stored h = ground arith

  outcomes_below : (n v : ℕ) → v < u32_max → ok tt ∷ outcomes F n (v + 1) ≡ outcomes F (suc n) v
  outcomes_below n v h =
      let more : min (suc n) (u32_max - v) ≡ suc (min n (u32_max - (v + 1))) = omega arith in
      let fewer : suc n - (u32_max - v) ≡ n - (u32_max - (v + 1)) = omega arith in rw (more, fewer)

  outcomes_at :
      (n v : ℕ)
      → v ≡ u32_max
      → err (F.error_into storage_overflow) ∷ outcomes F n v ≡ outcomes F (suc n) v
  outcomes_at n v h =
      let none_left : u32_max - v ≡ 0 = omega arith in
      let now : min (suc n) 0 ≡ 0 = omega arith in
      let later : min n 0 ≡ 0 = omega arith in
      let all : suc n - 0 ≡ suc n = omega arith in
      let rest : n - 0 ≡ n = omega arith in rw (none_left, now, later, all, rest)

  -- After n calls of `cause_error` by a signed origin on a stored `u32` v, the results are `Ok(())`
  -- for as long as the value is below `u32::MAX` and `StorageOverflow` from there on, in this
  -- order, and the stored value is v + n, or `u32::MAX` if that is less.
  pub cause_error-repeat :
      (n : ℕ) (origin : Origin) (s : Storage) {who : AccountId} {v : ℕ}
      → ensure_signed origin ≡ ok who
      → get_something s ≡ some v
      → v ≤ u32_max
      → ((dispatch_all F (calls F n origin) s).0 ≡ outcomes F n v)
        × (get_something (dispatch_all F (calls F n origin) s).1 ≡ some (min (v + n) u32_max))
  unfolding dispatch_all
  cause_error-repeat zero origin s {v} signed stored h =
      let none_made : min 0 (u32_max - v) ≡ 0 = omega arith in
      let none_lost : 0 - (u32_max - v) ≡ 0 = omega arith in
      (rw (none_made, none_lost), stored ∙ ap some (omega arith))
  cause_error-repeat (suc n) origin s {v} signed stored h = elim (dec_lt v u32_max) [
    | yes p ↦
        let (result, next) = below_max origin s signed stored p in
        let (results, last) =
          cause_error-repeat n origin (dispatch F cause_error origin s).1 signed next
            (omega arith) in
        (rw (result, results) (outcomes_below n v p), last ∙ ap some (omega arith))
    | no p ↦
        let full : v ≡ u32_max = omega arith in
        let (results, last) = cause_error-repeat n origin s signed stored h in
        let stuck = at_max origin s signed stored full in
        (
          rw stuck (rw results (outcomes_at n v full)),
          rw (dispatch_all, stuck) (last ∙ ap some (omega arith)),
        )
  ]
