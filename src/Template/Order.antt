-- ===== src/Template/Order.antt =====
-- pallets/template/src/lib.rs: `cause_error` called by several accounts, in one order or another.
use mathlib.Core.List.{Permᴰ}
use mathlib.Core.List.Permᴰ
use nexusguild.Base.{
  ◌≡◌, ◌⊎◌, inl, inr, refl, ◌∙◌, sym, ap, Result, err, List, [], ◌∷◌, Result-cases, arith,
}
use nexusguild.Template.Frame.{Frame}
use nexusguild.Template.Dispatch.{Call, cause_error, increment, dispatch, dispatch_all}

module _ (F : Frame) where
  open F use {Origin, DispatchError, Storage, get_something, ensure_signed}

  -- Each origin calls `cause_error` once, in this order.
  abbrev pub turns : List Origin → List (Origin × Call)
  turns [] = []
  turns (o ∷ origins) = (o, cause_error) ∷ turns origins

  abbrev results : List Origin → Storage → List (Result DispatchError (Unit {0}))
  results origins s = (dispatch_all F (turns origins) s).0

  abbrev last : List Origin → Storage → Storage
  last origins s = (dispatch_all F (turns origins) s).1

  -- A call is refused, and then it does nothing, or it does what it would do for anyone else.
  refused_or_same :
      (o : Origin)
      → ((e : DispatchError) × ((s : Storage) → dispatch F cause_error o s ≡ (err e, s)))
        ⊎ ((s : Storage) → dispatch F cause_error o s ≡ increment F (get_something s) s)
  unfolding dispatch
  refused_or_same o = elim (Result-cases (ensure_signed o)) [
    | inl (who, signed) ↦ inr (λ s. ground arith)
    | inr (e, refused) ↦ inl (e, λ s. ground arith)
  ]

  abbrev SameUpToOrder : List Origin → List Origin → Storage → Type 0
  SameUpToOrder origins others s =
      Permᴰ (results origins s) (results others s) × (last origins s ≡ last others s)

  refused_first :
      (a b : Origin) (origins : List Origin) (s : Storage) {e : DispatchError}
      → ((t : Storage) → dispatch F cause_error a t ≡ (err e, t))
      → SameUpToOrder (a ∷ b ∷ origins) (b ∷ a ∷ origins) s
  unfolding dispatch_all
  refused_first a b origins s refused =
      let now = refused s in
      let later = refused (dispatch F cause_error b s).1 in
      (
        rw (now, later) (Permᴰ.swap refl refl),
        ap (λ r. last origins (dispatch F cause_error b r.1).1) now
            ∙ sym (ap (λ r. last origins r.1) later),
      )

  both_same :
      (a b : Origin) (origins : List Origin) (s : Storage)
      → ((t : Storage) → dispatch F cause_error a t ≡ dispatch F cause_error b t)
      → SameUpToOrder (a ∷ b ∷ origins) (b ∷ a ∷ origins) s
  unfolding dispatch_all
  both_same a b origins s same =
      let now = same s in
      let later = same (dispatch F cause_error b s).1 in
      (
        rw (now, later) (Permᴰ.refl _),
        ap (λ r. last origins (dispatch F cause_error b r.1).1) now
            ∙ sym (ap (λ r. last origins r.1) later),
      )

  first_two :
      (a b : Origin) (origins : List Origin) (s : Storage)
      → SameUpToOrder (a ∷ b ∷ origins) (b ∷ a ∷ origins) s
  first_two a b origins s = elim (refused_or_same a) [
    | inl (e, refused) ↦ refused_first a b origins s refused
    | inr same ↦ elim (refused_or_same b) [
      | inl (e, refused) ↦
          let (results, storage) = refused_first b a origins s refused in
          (Permᴰ.symm results, sym storage)
      | inr same_too ↦ both_same a b origins s (λ t. same t ∙ sym (same_too t))
    ]
  ]

  -- The calls of `cause_error` of several accounts may be made in any order: the storage at the end
  -- is the same, and so are the results but for their order, whether the origins are signed or not
  -- and whatever the stored value is.
  pub dispatch_all-Perm :
      {origins others : List Origin}
      → Permᴰ origins others
      → (s : Storage)
      → Permᴰ (dispatch_all F (turns origins) s).0 (dispatch_all F (turns others) s).0
        × ((dispatch_all F (turns origins) s).1 ≡ (dispatch_all F (turns others) s).1)
  unfolding dispatch_all
  dispatch_all-Perm Permᴰ.nil s = (Permᴰ.nil, refl)
  dispatch_all-Perm (Permᴰ.cons {a} {b} e p) s =
      let (results, storage) = dispatch_all-Perm p (dispatch F cause_error a s).1 in
      rw (sym e) (Permᴰ.cons refl results, storage)
  dispatch_all-Perm (Permᴰ.swap {a} {b} {l} e d) s = rw (sym e, sym d) (first_two a b l s)
  dispatch_all-Perm (Permᴰ.trans p q) s =
      let (results, storage) = dispatch_all-Perm p s in
      let (results_too, storage_too) = dispatch_all-Perm q s in
      (Permᴰ.trans results results_too, storage ∙ storage_too)
