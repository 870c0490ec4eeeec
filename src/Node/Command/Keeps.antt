-- ===== src/Node/Command/Keeps.antt =====
-- node/src/command.rs: what holds of every command that a run runs, by rules for its steps.
use nexusguild.Base.{
  refl, ap, ok-inj, ok-ne-err, map_err, Bool, true, false, if◌then◌else◌, All, Result, ok, err, ◌≡◌,
  sym, List, [], ◌∷◌, ◌++◌, ◌>>=◌, pure,
}
use mathlib.Core.Path.{subst}
use nexusguild.Node.Cli.{CommandTypes}
use nexusguild.Node.Service.Host.{Types}
use nexusguild.Node.Service.Log.{Building, Stopped}
use nexusguild.Node.Command.Host.{
  CliTypes, CliHost, Invocation, World, Run, propagate, build, call_run,
}

pub map_err-ok :
    {A E D : Type 0} (f : E → D) (r : Result E A) {a : A} → map_err f r ≡ ok a → r ≡ ok a
map_err-ok f (ok b) h = ap ok (ok-inj h)
map_err-ok f (err e) h = absurd (ok-ne-err (sym h))

All-append :
    {A : Type 0} (P : A → Type 0) (xs : List A) (a : A) → All P xs → P a → All P (xs ++ a ∷ [])
All-append P [] a h p = (p, tt)
All-append P (x ∷ xs) a (q, h) p = (q, All-append P xs a h p)

module _ (Y : Types) (X : CommandTypes) (Z : CliTypes) (H : CliHost Y X Z)
    (P : Invocation Y X Z → Type 0) where
  -- Where all commands that were run have the property, all have it after this part too.
  pub record Keeps {A : Type 0} (m : Run Y X Z A) : Type 0 where
    pub from : (w : World Y X Z) → All P w.invoked → All P (m w).1.invoked

module _ (Y : Types) (X : CommandTypes) (Z : CliTypes) (H : CliHost Y X Z)
    (P : Invocation Y X Z → Type 0) where
  -- What a part gives, from some world.
  abbrev pub Gives : {A : Type 0} → Run Y X Z A → A → Type 0
  Gives m a = (w : World Y X Z) × ((m w).0 ≡ ok a)

  bind_result :
      {A B : Type 0} (f : A → Run Y X Z B) (r : Result (Stopped Z.Error) A) (t : World Y X Z)
      → ((a : A) → r ≡ ok a → Keeps Y X Z H P (f a))
      → All P t.invoked
      → All P (◌>>=◌ {A = A} {B = B} (λ _. (r, t)) f t).1.invoked
  unfolding ◌>>=◌
  bind_result f (ok a) t h k = (h a refl).from t k
  bind_result f (err e) t h k = k

  pub Keeps-bind :
      {A B : Type 0} (m : Run Y X Z A) (f : A → Run Y X Z B)
      → Keeps Y X Z H P m
      → ((a : A) → Gives m a → Keeps Y X Z H P (f a))
      → Keeps Y X Z H P (m >>= f)
  unfolding ◌>>=◌
  Keeps-bind m f h k = record {
    from = λ w q. bind_result f (m w).0 (m w).1 (λ a e. k a (w, e)) (h.from w q);
  }

  pub Keeps-propagate : {A : Type 0} (r : Result Z.Error A) → Keeps Y X Z H P (propagate Y X Z r)
  unfolding propagate
  Keeps-propagate (ok a) = record { from = λ w q. q }
  Keeps-propagate (err e) = record { from = λ w q. q }

  pub Keeps-build :
      {A : Type 0} (f : Y.Error → Z.Error) (m : Building Y A) → Keeps Y X Z H P (build Y X Z f m)
  unfolding build
  Keeps-build f m = record { from = λ w q. q }

  pub Keeps-call_run : (i : Invocation Y X Z) → P i → Keeps Y X Z H P (call_run Y X Z H i)
  unfolding call_run
  Keeps-call_run i p = record {
    from = λ w q.
        (Keeps-propagate (H.invoke i)).from (record w { invoked = w.invoked ++ i ∷ [] })
          (All-append P w.invoked i q p);
  }

  given_result :
      {A T : Type 0} (f : A → Invocation Y X Z) (g : A → T) (r : Result (Stopped Z.Error) A)
      (t : World Y X Z)
      → ((a : A) → r ≡ ok a → P (f a))
      → All P t.invoked
      → let given = ◌>>=◌ {A = A} {B = Invocation Y X Z × T} (λ _. (r, t)) (λ a. pure (f a, g a)) in
        All P ((given >>= λ (i, _). call_run Y X Z H i) t).1.invoked
  unfolding ◌>>=◌ pure
  given_result f g (ok a) t h k = (Keeps-call_run (f a) (h a refl)).from t k
  given_result f g (err e) t h k = k

  -- A part that gives the command to run, and the run of it.
  pub Keeps-given :
      {A T : Type 0} (m : Run Y X Z A) (f : A → Invocation Y X Z) (g : A → T)
      → Keeps Y X Z H P m
      → ((a : A) → Gives m a → P (f a))
      → Keeps Y X Z H P (
          ◌>>=◌ {A = Invocation Y X Z × T}
            (m >>= λ a. pure (f a, g a))
            (λ (i, _). call_run Y X Z H i))
  unfolding ◌>>=◌
  Keeps-given m f g h p = record {
    from = λ w q. given_result f g (m w).0 (m w).1 (λ a e. p a (w, e)) (h.from w q);
  }

  pub Keeps-if :
      {A : Type 0} (b : Bool) (m k : Run Y X Z A)
      → (b ≡ true → Keeps Y X Z H P m)
      → (b ≡ false → Keeps Y X Z H P k)
      → Keeps Y X Z H P (if b then m else k)
  Keeps-if true m k h g = h refl
  Keeps-if false m k h g = g refl

  pub Keeps-as : {A : Type 0} (m k : Run Y X Z A) → k ≡ m → Keeps Y X Z H P m → Keeps Y X Z H P k
  Keeps-as m k e h = subst (λ m. Keeps Y X Z H P m) (sym e) h

module _ (Y : Types) (X : CommandTypes) (Z : CliTypes) where
  -- A result that is passed on is the result.
  pub propagate-ok :
      {A : Type 0} (r : Result Z.Error A) (w : World Y X Z) (a : A)
      → (propagate Y X Z r w).0 ≡ ok a
      → r ≡ ok a
  unfolding propagate
  propagate-ok (ok b) w a h = ap ok (ok-inj h)
  propagate-ok (err e) w a h = absurd (ok-ne-err (sym h))

  -- What was built is what the construction gave.
  pub build-ok :
      {A : Type 0} (f : Y.Error → Z.Error) (m : Building Y A) (w : World Y X Z) (a : A)
      → (build Y X Z f m w).0 ≡ ok a
      → (m w.tasks).0 ≡ ok a
  unfolding build
  build-ok f m w a h = map_err-ok _ (m w.tasks).0 h
