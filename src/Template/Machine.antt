-- ===== src/Template/Machine.antt =====
-- pallets/template/src/lib.rs: the pallet as a machine whose steps are its calls, and what the
-- chain does without touching the stored value.
use nexusguild.Base.{
  ℕ, ◌+◌, ◌-◌, ◌≤◌, ◌≡◌, ◌∙◌, ap, min, Option, none, some, ok, ◌∷◌, append-nil, replicate, arith,
}
use nexusguild.Base.Words.{u32_max}
use nexusguild.Template.Frame.{Frame, IsLawful}
use nexusguild.Template.Dispatch.{Call, do_something, dispatch, dispatch_all}
use nexusguild.Template.Counter.{
  answer, request, get_something-dispatch, InRange, HasU32, Request, set_to, count_up, refused,
  dispatch-InRange,
}
use nexusguild.Template.Repeat.{calls, outcomes, cause_error-repeat}

module _ (F : Frame) where
  -- A step is a call with any origin; or anything that leaves `Something` as it is, such as the
  -- change from one block to the next and the ordinary calls of the other pallets; or a write of a
  -- `u32` to it that does not go through the pallet, as by `set_storage` of the root origin. Where
  -- the root origin or the sudo key removes the value (`kill_storage`), or writes bytes that are no
  -- `u32`, there is no step.
  pub data Step (s t : F.Storage) : Type 0 where
    called :
        (call : Call) (origin : F.Origin)
        → HasU32 call
        → t ≡ (dispatch F call origin s).1
        → Step s t
    elsewhere : F.get_something t ≡ F.get_something s → Step s t
    overwritten : (n : ℕ) → n ≤ u32_max → F.get_something t ≡ some n → Step s t

  pub data Reach (s : F.Storage) : F.Storage → Type 0 where
    here : Reach s s
    next : {t u : F.Storage} → Reach s t → Step t u → Reach s u

  -- One run after another.
  pub Reach-trans : {s t u : F.Storage} → Reach s t → Reach t u → Reach s u
  Reach-trans r here = r
  Reach-trans r (next q st) = next (Reach-trans r q) st

abbrev pub HasValue : Option ℕ → Type 0
HasValue none = ⊥
HasValue (some n) = Unit

answer-HasValue : (r : Request) (c : Option ℕ) → HasValue c → HasValue (answer r c)
answer-HasValue refused c h = h
answer-HasValue (set_to n) c h = tt
answer-HasValue count_up (some n) h = tt
answer-HasValue count_up none h = h

module _ (F : Frame) (L : IsLawful F) where
  open F use {Origin, AccountId, Storage, get_something, ensure_signed}

  Step-kept :
      {s t : Storage}
      → Step F s t
      → InRange (get_something s)
      → InRange (get_something t) × (HasValue (get_something s) → HasValue (get_something t))
  Step-kept {s} (called call origin u e) h = rw e (
    dispatch-InRange F L call origin s u h,
    λ v.
        rw (get_something-dispatch F L call origin s h)
          (answer-HasValue (request F (origin, call)) (get_something s) v),
  )
  Step-kept (elsewhere e) h = rw e (h, λ v. v)
  Step-kept (overwritten n small e) h = rw e (small, λ v. tt)

  -- From a storage whose value is a `u32` or unset, whatever calls of the pallet with `u32`
  -- arguments are made by any origins, with any steps in between that leave `Something` as it is or
  -- write a `u32` to it past the pallet, the value stays a `u32` or unset, and once it is set it is
  -- not unset again.
  pub Reach-kept :
      {s t : Storage}
      → InRange (get_something s)
      → Reach F s t
      → InRange (get_something t) × (HasValue (get_something s) → HasValue (get_something t))
  Reach-kept h here = (h, λ v. v)
  Reach-kept h (next r st) =
      let (range, kept) = Reach-kept h r in
      let (range_too, kept_too) = Step-kept st range in (range_too, λ v. kept_too (kept v))

  set_by :
      (n : ℕ) (origin : Origin) (s : Storage) {who : AccountId}
      → ensure_signed origin ≡ ok who
      → ((dispatch F (do_something n) origin s).0 ≡ ok tt)
        × (get_something (dispatch F (do_something n) origin s).1 ≡ some n)
  unfolding dispatch
  set_by n origin s h = grind (arith, L.get-put, L.get-deposit)

  -- The pallet is never stuck: in any storage, also when the value is unset or at its maximum, a
  -- signed `do_something` succeeds and sets the value, and after it as many calls of `cause_error`
  -- as the range of `u32` has room for succeed, each adding one.
  pub do_something-recovers :
      (n k : ℕ) (origin : Origin) (s : Storage) {who : AccountId}
      → ensure_signed origin ≡ ok who
      → n + k ≤ u32_max
      → let (results, t) = dispatch_all F ((origin, do_something n) ∷ calls F k origin) s in
        (results ≡ ok tt ∷ replicate k (ok tt)) × (get_something t ≡ some (n + k))
  unfolding dispatch_all
  do_something-recovers n k origin s signed fits =
      let (result, stored) = set_by n origin s signed in
      let (results, last) =
        cause_error-repeat F L k origin (dispatch F (do_something n) origin s).1 signed stored
          (omega arith) in
      let all_succeed : min k (u32_max - n) ≡ k = omega arith in
      let none_fails : k - (u32_max - n) ≡ 0 = omega arith in
      let same : outcomes F k n ≡ replicate k (ok tt) =
        rw (all_succeed, none_fails) (append-nil (replicate k (ok tt))) in
      (rw (result, results, same), last ∙ ap some (omega arith))
