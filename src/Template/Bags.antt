-- ===== src/Template/Bags.antt =====
-- pallets/template/src/lib.rs: `cause_error` called by a bag of accounts, whose order is forgotten.
use mathlib.Core.List.{Permᴰ}
use mathlib.Core.List.Permᴰ
use mathlib.Core.Path.{fun_ext}
use mathlib.Core.Quot
use mathlib.Core.Quot.{Quot, Quot-set}
use native.Mathlib.Nat.{ℕ_set}
use nexusguild.Base.{
  ℕ, ◌+◌, ◌-◌, ◌≡◌, ◌∙◌, refl, sym, ap, min, inl, inr, Option, none, some, Result, ok, err, List,
  [], ◌∷◌, ◌++◌, arith, Result-cases,
}
use nexusguild.Base.Words.{u32_max}
use nexusguild.Template.Frame.{Frame, IsLawful, none_value}
use nexusguild.Template.Dispatch.{cause_error, dispatch, dispatch_all}
use nexusguild.Template.Counter.{InRange}
use nexusguild.Template.Order.{turns, dispatch_all-Perm}
use nexusguild.Template.Turns.{successes, signed_one, signed_count, turns-successes}

-- How often n calls of signed origins can succeed, and the value after them.
abbrev pub room : Option ℕ → ℕ
room none = 0
room (some v) = u32_max - v

abbrev pub raise : ℕ → Option ℕ → Option ℕ
raise n none = none
raise n (some v) = some (min (v + n) u32_max)

pub value_set : IsSet (Option ℕ)
value_set = hlevel

raise_add : (m n : ℕ) (c : Option ℕ) → raise (m + n) c ≡ raise n (raise m c)
raise_add m n none = refl
raise_add m n (some v) = ap some (omega arith)

pub successes-Perm :
    {E A : Type 0} {rs qs : List (Result E A)} → Permᴰ rs qs → successes rs ≡ successes qs
successes-Perm Permᴰ.nil = refl
successes-Perm (Permᴰ.cons {a = ok a} {l₁ = l} e p) =
    rw (sym e) (ap (λ n. n + 1) (successes-Perm p))
successes-Perm (Permᴰ.cons {a = err a} {l₁ = l} e p) = rw (sym e) (successes-Perm p)
successes-Perm (Permᴰ.swap {a = ok a} {b = ok b} e d) = rw (sym e, sym d) refl
successes-Perm (Permᴰ.swap {a = ok a} {b = err b} e d) = rw (sym e, sym d) refl
successes-Perm (Permᴰ.swap {a = err a} {b = ok b} e d) = rw (sym e, sym d) refl
successes-Perm (Permᴰ.swap {a = err a} {b = err b} e d) = rw (sym e, sym d) refl
successes-Perm (Permᴰ.trans p q) = successes-Perm p ∙ successes-Perm q

module _ (F : Frame) where
  open F use {Origin, Storage, get_something}

  -- Origins that call `cause_error` once each, as often as they stand in the bag.
  abbrev pub Bag : Type 0
  Bag = Quot (Permᴰ {A = Origin})

  pub signed_count-Perm :
      {origins others : List Origin}
      → Permᴰ origins others
      → signed_count F origins ≡ signed_count F others
  signed_count-Perm Permᴰ.nil = refl
  signed_count-Perm (Permᴰ.cons {a} e p) =
      rw (sym e) (ap (λ n. signed_one F (F.ensure_signed a) + n) (signed_count-Perm p))
  signed_count-Perm (Permᴰ.swap e d) = rw (sym e, sym d) (omega arith)
  signed_count-Perm (Permᴰ.trans p q) = signed_count-Perm p ∙ signed_count-Perm q

  abbrev pub signed_in : Bag → ℕ
  signed_in = Quot.lift ℕ_set (signed_count F) (λ a b p. signed_count-Perm p)

  -- The calls of a bag are made in any order of it: the value that they leave, and how many of
  -- them succeed.
  abbrev pub value_after : Bag → Storage → Option ℕ
  value_after b s =
      Quot.lift value_set (λ origins. get_something (dispatch_all F (turns F origins) s).1)
        (λ a b p. ap get_something (dispatch_all-Perm F p s).1) b

  abbrev pub successes_of : Bag → Storage → ℕ
  successes_of b s =
      Quot.lift ℕ_set (λ origins. successes (dispatch_all F (turns F origins) s).0)
        (λ a b p. successes-Perm (dispatch_all-Perm F p s).0) b

  abbrev pub append_to : List Origin → Bag → Bag
  append_to origins =
      Quot.lift Quot-set (λ others. Quot.mk (origins ++ others))
        (λ a b p. Quot.sound (Permᴰ.append_left origins p))

  -- Two bags together.
  abbrev pub join : Bag → Bag → Bag
  join = Quot.lift {β = Bag → Bag} (hlevel (Quot-set)) append_to (λ a b p.
      fun_ext (Quot.ind (λ c. Quot-set _ _) (λ others. Quot.sound (Permᴰ.append_right others p))))

module _ (F : Frame) (L : IsLawful F) where
  open F use {Origin, Storage, get_something, ensure_signed}

  -- On an unset value no call succeeds.
  unset_turn :
      (o : Origin) (s : Storage)
      → get_something s ≡ none
      → (e : F.DispatchError) × (dispatch F cause_error o s ≡ (err e, s))
  unfolding dispatch
  unset_turn o s unset = elim (Result-cases (ensure_signed o)) [
    | inl (who, signed) ↦ (F.error_into none_value, ground arith)
    | inr (e, refused) ↦ (e, ground arith)
  ]

  turns_unset :
      (origins : List Origin) (s : Storage)
      → get_something s ≡ none
      → (get_something (dispatch_all F (turns F origins) s).1 ≡ none)
        × (successes (dispatch_all F (turns F origins) s).0 ≡ 0)
  unfolding dispatch_all
  turns_unset [] s unset = (unset, refl)
  turns_unset (o ∷ origins) s unset =
      let (e, turn) = unset_turn o s unset in
      let (value, count) = turns_unset origins s unset in
      (rw (dispatch_all, turn) value, rw turn count)

  turns_at :
      (origins : List Origin) (s : Storage) (c : Option ℕ)
      → get_something s ≡ c
      → InRange c
      → (get_something (dispatch_all F (turns F origins) s).1 ≡ raise (signed_count F origins) c)
        × (successes (dispatch_all F (turns F origins) s).0 ≡ min (signed_count F origins) (room c))
  turns_at origins s none unset h =
      let (value, count) = turns_unset origins s unset in (value, count ∙ omega arith)
  turns_at origins s (some v) stored h = turns-successes F L origins s stored h

  signed_count-append :
      (origins others : List Origin)
      → signed_count F (origins ++ others) ≡ signed_count F origins + signed_count F others
  signed_count-append [] others = omega arith
  signed_count-append (o ∷ origins) others = omega (arith, signed_count-append origins others)

  signed_in-join :
      (one other : Bag F) → signed_in F (join F one other) ≡ signed_in F one + signed_in F other
  signed_in-join one other =
      Quot.ind {β = λ b. signed_in F (join F b other) ≡ signed_in F b + signed_in F other}
        (λ b. ℕ_set _ _)
        (λ origins.
          Quot.ind
            {β = λ c. signed_in F (append_to F origins c) ≡ signed_count F origins + signed_in F c}
            (λ c. ℕ_set _ _) (signed_count-append origins) other)
        one

  value_after-raise :
      (s : Storage) (h : InRange (get_something s)) (b : Bag F)
      → value_after F b s ≡ raise (signed_in F b) (get_something s)
  value_after-raise s h =
      Quot.ind (λ b. value_set _ _) (λ origins. (turns_at origins s (get_something s) refl h).0)

  successes_of_lem :
      (s : Storage) (h : InRange (get_something s)) (b : Bag F)
      → successes_of F b s ≡ min (signed_in F b) (room (get_something s))
  successes_of_lem s h =
      Quot.ind (λ b. ℕ_set _ _) (λ origins. (turns_at origins s (get_something s) refl h).1)

  -- The calls of `cause_error` that the origins of a bag make leave the same value, and as many of
  -- them succeed, in whatever order they are made. On an unset value none succeeds. On a `u32` v as
  -- many succeed as there are signed origins in the bag, up to the room above v, and the value
  -- grows by that. Two bags together do to the value what the one does and then the other.
  pub bag-raises :
      (one other : Bag F) (s : Storage)
      → InRange (get_something s)
      → (value_after F one s ≡ raise (signed_in F one) (get_something s))
        × (successes_of F one s ≡ min (signed_in F one) (room (get_something s)))
        × (value_after F (join F one other) s ≡ raise (signed_in F other) (value_after F one s))
  bag-raises one other s h =
      let first = value_after-raise s h one in
      (
        first,
        successes_of_lem s h one,
        value_after-raise s h (join F one other)
            ∙ ap (λ n. raise n (get_something s)) (signed_in-join one other)
            ∙ raise_add (signed_in F one) (signed_in F other) (get_something s)
            ∙ ap (raise (signed_in F other)) (sym first),
      )
