-- ===== src/Node/Service/Stops.antt =====
-- node/src/service.rs: why a part of the construction stops, by rules for its steps.
use mathlib.Core.Path.{subst}
use nexusguild.Base.{
  err-inj, ok-ne-err, List, String, Bool, true, false, if◌then◌else◌, Option, none, some, Result,
  ok, err, ◌≡◌, refl, ◌>>=◌, pure,
}
use nexusguild.Node.Service.Host.{Types}
use nexusguild.Node.Service.Log.{
  Stopped, failed, panic, Entry, Building, attempt, expect, spawn, spawn_essential_blocking,
  start_service_tasks,
}

module _ (Y : Types) (Why : Stopped Y.Error → Type 0) where
  -- Whatever was spawned before, the part stops only for the reasons.
  pub record Stops {A : Type 0} (m : Building Y A) : Type 0 where
    pub from : (s : List (Entry Y)) (e : Stopped Y.Error) → (m s).0 ≡ err e → Why e

module _ (Y : Types) (Why : Stopped Y.Error → Type 0) where
  bind_out :
      {A B : Type 0} (f : A → Building Y B) (r : Result (Stopped Y.Error) A) (t : List (Entry Y))
      → ((e : Stopped Y.Error) → r ≡ err e → Why e)
      → ((a : A) → Stops Y Why (f a))
      → (e : Stopped Y.Error) → (◌>>=◌ {A = A} {B = B} (λ _. (r, t)) f t).0 ≡ err e
      → Why e
  unfolding ◌>>=◌
  bind_out f (ok a) t first h e q = (h a).from t e q
  bind_out f (err x) t first h e q = subst Why (err-inj q) (first x refl)

  pub Stops-bind :
      {A B : Type 0} (m : Building Y A) (f : A → Building Y B)
      → Stops Y Why m
      → ((a : A) → Stops Y Why (f a))
      → Stops Y Why (m >>= f)
  unfolding ◌>>=◌
  Stops-bind m f first h = record { from = λ s. bind_out f (m s).0 (m s).1 (first.from s) h }

  pub Stops-attempt :
      {A B : Type 0} (r : Result Y.Error A) (f : A → Building Y B)
      → ((e : Y.Error) → r ≡ err e → Why (failed e))
      → ((a : A) → Stops Y Why (f a))
      → Stops Y Why (attempt Y r >>= f)
  unfolding attempt ◌>>=◌
  Stops-attempt (ok a) f y h = record { from = (h a).from }
  Stops-attempt (err x) f y h = record { from = λ s e q. subst Why (err-inj q) (y x refl) }

  pub Stops-expect :
      {A B : Type 0} (o : Option A) (message : String) (f : A → Building Y B)
      → (o ≡ none → Why (panic message))
      → ((a : A) → Stops Y Why (f a))
      → Stops Y Why (expect Y o message >>= f)
  unfolding expect ◌>>=◌
  Stops-expect (some a) message f y h = record { from = (h a).from }
  Stops-expect none message f y h = record { from = λ s e q. subst Why (err-inj q) (y refl) }

  pub Stops-pure : {A : Type 0} (a : A) → Stops Y Why (pure a)
  unfolding pure
  Stops-pure a = record { from = λ s e q. absurd (ok-ne-err q) }

  pub Stops-spawn :
      (name : String) (group : Option String) (body : Y.Task)
      → Stops Y Why (spawn Y name group body)
  unfolding spawn
  Stops-spawn name group body = record { from = λ s e q. absurd (ok-ne-err q) }

  pub Stops-spawn_essential_blocking :
      (name : String) (group : Option String) (body : Y.Task)
      → Stops Y Why (spawn_essential_blocking Y name group body)
  unfolding spawn_essential_blocking
  Stops-spawn_essential_blocking name group body = record { from = λ s e q. absurd (ok-ne-err q) }

  pub Stops-start_service_tasks :
      (r : Result Y.Error (Unit {0}))
      → ((e : Y.Error) → r ≡ err e → Why (failed e))
      → Stops Y Why (start_service_tasks Y r)
  unfolding start_service_tasks
  Stops-start_service_tasks (ok a) y = record { from = λ s e q. absurd (ok-ne-err q) }
  Stops-start_service_tasks (err x) y = record { from = λ s e q. subst Why (err-inj q) (y x refl) }

  pub Stops-if :
      {A : Type 0} (b : Bool) (m k : Building Y A)
      → (b ≡ true → Stops Y Why m)
      → Stops Y Why k
      → Stops Y Why (if b then m else k)
  Stops-if true m k h g = h refl
  Stops-if false m k h g = g
