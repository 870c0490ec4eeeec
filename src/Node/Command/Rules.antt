-- ===== src/Node/Command/Rules.antt =====
-- node/src/command.rs: which command a part of a run runs, and why it stops before it, by rules for
-- its steps.
use nexusguild.Base.{
  Bool, true, false, if◌then◌else◌, Result, ok, err, map_err, ◌≡◌, refl, ◌∙◌, ap, [], ◌∷◌, ◌++◌,
  ◌>>=◌, pure,
}
use mathlib.Core.Path.{subst}
use nexusguild.Node.Cli.{CommandTypes, Subcommand}
use nexusguild.Node.Service.Host.{Types}
use nexusguild.Node.Service.Log.{Building, Stopped, failed}
use nexusguild.Node.Command.Host.{
  CliTypes, CliHost, Invocation, command_of, World, Run, propagate, build, call_run,
}

-- The predicate says for which reasons a part may stop with an error.
module _ (Y : Types) (X : CommandTypes) (Z : CliTypes) (H : CliHost Y X Z)
    (Why : Stopped Z.Error → Type 0) where
  -- Either one command was run, which is that of the subcommand, and its result is the result; or
  -- none was run, and there is an error with its reason.
  pub data Ran (s : Subcommand X) (w : World Y X Z) (r : Result (Stopped Z.Error) (Unit {0}))
      (v : World Y X Z) : Type 0 where
    ran :
        (i : Invocation Y X Z)
        → command_of Y X Z i ≡ s
        → v.invoked ≡ w.invoked ++ i ∷ []
        → r ≡ map_err failed (H.invoke i)
        → Ran s w r v
    stopped : (e : Stopped Z.Error) → Why e → r ≡ err e → v.invoked ≡ w.invoked → Ran s w r v

  pub record Once (s : Subcommand X) (m : Run Y X Z (Unit {0})) : Type 0 where
    pub from : (w : World Y X Z) → Ran s w (m w).0 (m w).1

  -- A part that runs no command, and stops for the reasons alone.
  pub record Quiet {A : Type 0} (m : Run Y X Z A) : Type 0 where
    pub same : (w : World Y X Z) → (m w).1.invoked ≡ w.invoked
    pub reason : (w : World Y X Z) (e : Stopped Z.Error) → (m w).0 ≡ err e → Why e

module _ (Y : Types) (X : CommandTypes) (Z : CliTypes) (H : CliHost Y X Z)
    (Why : Stopped Z.Error → Type 0) where
  moved :
      (s : Subcommand X) (w t v : World Y X Z) (r : Result (Stopped Z.Error) (Unit {0}))
      → t.invoked ≡ w.invoked
      → Ran Y X Z H Why s t r v
      → Ran Y X Z H Why s w r v
  moved s w t v r e (ran i c k q) = ran i c (k ∙ ap (λ l. l ++ i ∷ []) e) q
  moved s w t v r e (stopped x y p k) = stopped x y p (k ∙ e)

  bind_out :
      {A : Type 0} (s : Subcommand X) (f : A → Run Y X Z (Unit {0})) (w : World Y X Z)
      (r : Result (Stopped Z.Error) A) (t : World Y X Z)
      → t.invoked ≡ w.invoked
      → ((e : Stopped Z.Error) → r ≡ err e → Why e)
      → ((a : A) → Once Y X Z H Why s (f a))
      → let out = ◌>>=◌ {A = A} {B = Unit {0}} (λ _. (r, t)) f w in Ran Y X Z H Why s w out.0 out.1
  unfolding ◌>>=◌
  bind_out s f w (ok a) t e y h = moved s w t (f a t).1 (f a t).0 e ((h a).from t)
  bind_out s f w (err x) t e y h = stopped x (y x refl) refl e

  pub Once-bind :
      {A : Type 0} (s : Subcommand X) (m : Run Y X Z A) (f : A → Run Y X Z (Unit {0}))
      → Quiet Y X Z H Why m
      → ((a : A) → Once Y X Z H Why s (f a))
      → Once Y X Z H Why s (m >>= f)
  unfolding ◌>>=◌
  Once-bind s m f quiet h = record {
    from = λ w. bind_out s f w (m w).0 (m w).1 (quiet.same w) (quiet.reason w) h;
  }

  pub Once-propagate :
      {A : Type 0} (s : Subcommand X) (r : Result Z.Error A) (f : A → Run Y X Z (Unit {0}))
      → ((e : Z.Error) → r ≡ err e → Why (failed e))
      → ((a : A) → r ≡ ok a → Once Y X Z H Why s (f a))
      → Once Y X Z H Why s (propagate Y X Z r >>= f)
  unfolding ◌>>=◌ propagate
  Once-propagate s (ok a) f y h = record { from = (h a refl).from }
  Once-propagate s (err e) f y h = record { from = λ w. stopped (failed e) (y e refl) refl refl }

  pub Quiet-build :
      {A : Type 0} (f : Y.Error → Z.Error) (m : Building Y A)
      → ((w : World Y X Z) (e : Stopped Z.Error) → (build Y X Z f m w).0 ≡ err e → Why e)
      → Quiet Y X Z H Why (build Y X Z f m)
  unfolding build
  Quiet-build f m y = record { same = λ w. refl; reason = y }

  invoked_out :
      (i : Invocation Y X Z) (w v : World Y X Z) (r : Result Z.Error (Unit {0}))
      → r ≡ H.invoke i
      → v.invoked ≡ w.invoked ++ i ∷ []
      → let out = propagate Y X Z r v in Ran Y X Z H Why (command_of Y X Z i) w out.0 out.1
  unfolding propagate
  invoked_out i w v (ok _) h k = ran i refl k (ap (map_err failed) h)
  invoked_out i w v (err e) h k = ran i refl k (ap (map_err failed) h)

  pub Once-call_run :
      (i : Invocation Y X Z) → Once Y X Z H Why (command_of Y X Z i) (call_run Y X Z H i)
  unfolding call_run
  Once-call_run i = record { from = λ w. invoked_out i w _ (H.invoke i) refl refl }

  pub Once-refused :
      (s : Subcommand X) (e : Z.Error)
      → Why (failed e)
      → Once Y X Z H Why s (propagate Y X Z (err e))
  unfolding propagate
  Once-refused s e y = record { from = λ w. stopped (failed e) y refl refl }

  -- A part that gives the command to run, and the run of it.
  given_out :
      {A T : Type 0} (s : Subcommand X) (f : A → Invocation Y X Z) (g : A → T) (w : World Y X Z)
      (r : Result (Stopped Z.Error) A) (t : World Y X Z)
      → t.invoked ≡ w.invoked
      → ((e : Stopped Z.Error) → r ≡ err e → Why e)
      → ((a : A) → command_of Y X Z (f a) ≡ s)
      → let given = ◌>>=◌ {A = A} {B = Invocation Y X Z × T} (λ _. (r, t)) (λ a. pure (f a, g a)) in
        let out = (given >>= λ (i, _). call_run Y X Z H i) w in Ran Y X Z H Why s w out.0 out.1
  unfolding ◌>>=◌ pure
  given_out s f g w (ok a) t e y h =
      let out = call_run Y X Z H (f a) t in
      moved s w t out.1 out.0 e
        (subst (λ s. Ran Y X Z H Why s t out.0 out.1) (h a) ((Once-call_run (f a)).from t))
  given_out s f g w (err x) t e y h = stopped x (y x refl) refl e

  pub Once-given :
      {A T : Type 0} (s : Subcommand X) (m : Run Y X Z A) (f : A → Invocation Y X Z) (g : A → T)
      → Quiet Y X Z H Why m
      → ((a : A) → command_of Y X Z (f a) ≡ s)
      → Once Y X Z H Why s (
          ◌>>=◌ {A = Invocation Y X Z × T}
            (m >>= λ a. pure (f a, g a))
            (λ (i, _). call_run Y X Z H i))
  unfolding ◌>>=◌
  Once-given s m f g quiet h = record {
    from = λ w. given_out s f g w (m w).0 (m w).1 (quiet.same w) (quiet.reason w) h;
  }

  pub Once-if :
      (s : Subcommand X) (b : Bool) (m k : Run Y X Z (Unit {0}))
      → Once Y X Z H Why s m
      → (b ≡ false → Once Y X Z H Why s k)
      → Once Y X Z H Why s (if b then m else k)
  Once-if s true m k h g = h
  Once-if s false m k h g = g refl

  pub Once-as :
      (s : Subcommand X) (m k : Run Y X Z (Unit {0}))
      → m ≡ k
      → Once Y X Z H Why s m
      → Once Y X Z H Why s k
  Once-as s m k e h = subst (λ m. Once Y X Z H Why s m) e h
