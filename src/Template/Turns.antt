-- ===== src/Template/Turns.antt =====
-- pallets/template/src/lib.rs: `cause_error` called by several accounts on a stored value: how many
-- of the calls succeed.
use native.Mathlib.Decide.{dec_lt}
use nexusguild.Base.{
  ℕ, ◌+◌, ◌-◌, ◌≤◌, ◌≡◌, ◌∙◌, ap, min, inl, inr, some, Result, ok, err, List, [], ◌∷◌, arith,
  Result-cases,
}
use nexusguild.Base.Words.{u32_max}
use nexusguild.Template.Frame.{Frame, IsLawful}
use nexusguild.Template.Dispatch.{cause_error, dispatch, dispatch_all}
use nexusguild.Template.Repeat.{below_max, at_max}
use nexusguild.Template.Order.{turns}

abbrev pub successes : {E A : Type 0} → List (Result E A) → ℕ
successes [] = 0
successes (ok a ∷ rs) = successes rs + 1
successes (err e ∷ rs) = successes rs

module _ (F : Frame) where
  abbrev pub signed_one : {A : Type 0} → Result F.DispatchError A → ℕ
  signed_one (ok who) = 1
  signed_one (err e) = 0

  -- How many of the origins are signed.
  abbrev pub signed_count : List F.Origin → ℕ
  signed_count [] = 0
  signed_count (o ∷ origins) = signed_one (F.ensure_signed o) + signed_count origins

module _ (F : Frame) (L : IsLawful F) where
  open F use {Origin, Storage, get_something, ensure_signed}

  refused_turn :
      (o : Origin) (s : Storage) {e : F.DispatchError}
      → ensure_signed o ≡ err e
      → dispatch F cause_error o s ≡ (err e, s)
  unfolding dispatch
  refused_turn o s h = ground arith

  -- Where each of several origins calls `cause_error` once, on a stored `u32` v, as many calls
  -- succeed as there are signed origins, or as the range of `u32` has room for above v if that is
  -- less, and the value grows by one for each.
  pub turns-successes :
      (origins : List Origin) (s : Storage) {v : ℕ}
      → get_something s ≡ some v
      → v ≤ u32_max
      → (get_something (dispatch_all F (turns F origins) s).1
          ≡ some (min (v + signed_count F origins) u32_max))
        × (successes (dispatch_all F (turns F origins) s).0
            ≡ min (signed_count F origins) (u32_max - v))
  unfolding dispatch_all
  turns-successes [] s {v} stored h = (stored ∙ ap some (omega arith), omega arith)
  turns-successes (o ∷ origins) s {v} stored h = elim (Result-cases (ensure_signed o)) [
    | inr (e, refused) ↦
        let turn = refused_turn o s refused in
        let (value, count) = turns-successes origins s stored h in
        (
          rw (dispatch_all, turn, refused) (value ∙ ap some (omega arith)),
          rw (turn, refused) (count ∙ omega arith),
        )
    | inl (who, signed) ↦ elim (dec_lt v u32_max) [
      | yes p ↦
          let (result, next) = below_max F L o s signed stored p in
          let (value, count) =
            turns-successes origins (dispatch F cause_error o s).1 next (omega arith) in
          rw (result, signed) (value ∙ ap some (omega arith), ap (λ n. n + 1) count ∙ omega arith)
      | no p ↦
          let turn = at_max F L o s signed stored (omega arith) in
          let (value, count) = turns-successes origins s stored h in
          (
            rw (dispatch_all, turn, signed) (value ∙ ap some (omega arith)),
            rw (turn, signed) (count ∙ omega arith),
          )
    ]
  ]
