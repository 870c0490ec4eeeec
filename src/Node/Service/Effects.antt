-- ===== src/Node/Service/Effects.antt =====
-- node/src/service.rs: which tasks a part of the construction adds, whether it ends or stops.
use nexusguild.Base.{
  ok-ne-err, String, Bool, true, false, if◌then◌else◌, Option, none, some, Result, ok, err, ◌≡◌,
  refl, ◌∙◌, sym, ap, List, [], ◌∷◌, ◌++◌, append_assoc, append-nil, ◌>>=◌, pure,
}
use mathlib.Core.List.{map-append}
use nexusguild.Node.Service.Host.{Types}
use nexusguild.Node.Service.Log.{
  TaskKind, task, service_tasks, Stopped, failed, panic, Entry, Building, attempt, expect, spawn,
  spawn_essential_blocking, start_service_tasks, kinds,
}

module _ (Y : Types) where
  -- From the log s, a part that ends has added exactly the planned tasks, and one that stops has
  -- added the first ones of them.
  pub data Adds {A : Type 0} (plan : List TaskKind) (s : List (Entry Y))
      (r : Result (Stopped Y.Error) A) (t : List (Entry Y)) : Type 0 where
    ended : (a : A) → r ≡ ok a → kinds Y t ≡ kinds Y s ++ plan → Adds plan s r t
    stopped :
        (e : Stopped Y.Error) (done rest : List TaskKind)
        → r ≡ err e
        → done ++ rest ≡ plan
        → kinds Y t ≡ kinds Y s ++ done
        → Adds plan s r t

  -- A part adds the plan from every log.
  pub record Plans {A : Type 0} (plan : List TaskKind) (m : Building Y A) : Type 0 where
    pub from : (s : List (Entry Y)) → Adds plan s (m s).0 (m s).1

module _ (Y : Types) where
  continue :
      {B : Type 0} (plan next : List TaskKind) (s t : List (Entry Y))
      (r : Result (Stopped Y.Error) B) (u : List (Entry Y))
      → kinds Y t ≡ kinds Y s ++ plan
      → Adds Y next t r u
      → Adds Y (plan ++ next) s r u
  continue plan next s t r u q (ended b p k) =
      ended b p (k ∙ ap (λ l. l ++ next) q ∙ append_assoc (kinds Y s) plan next)
  continue plan next s t r u q (stopped e done rest p d k) =
      stopped e (plan ++ done) rest p (append_assoc plan done rest ∙ ap (λ l. plan ++ l) d)
        (k ∙ ap (λ l. l ++ done) q ∙ append_assoc (kinds Y s) plan done)

  widen :
      {A B : Type 0} (plan next : List TaskKind) (s t : List (Entry Y)) (e : Stopped Y.Error)
      → Adds Y {A = A} plan s (err e) t
      → Adds Y {A = B} (plan ++ next) s (err e) t
  widen plan next s t e (ended a p k) = cc
  widen plan next s t e (stopped x done rest p d k) =
      stopped e done (rest ++ next) refl (sym (append_assoc done rest next) ∙ ap (λ l. l ++ next) d)
        k

  bind_out :
      {A B : Type 0} (plan next : List TaskKind) (f : A → Building Y B) (s : List (Entry Y))
      (r : Result (Stopped Y.Error) A) (t : List (Entry Y))
      → Adds Y plan s r t
      → ((a : A) → Plans Y next (f a))
      → let out = ◌>>=◌ {A = A} {B = B} (λ _. (r, t)) f s in Adds Y (plan ++ next) s out.0 out.1
  unfolding ◌>>=◌
  bind_out plan next f s (ok a) t (ended b p k) h =
      continue plan next s t (f a t).0 (f a t).1 k ((h a).from t)
  bind_out plan next f s (ok a) t (stopped e done rest p d k) h = cc
  bind_out plan next f s (err e) t first h = widen plan next s t e first

  pub Plans-bind :
      {A B : Type 0} (plan next : List TaskKind) (m : Building Y A) (f : A → Building Y B)
      → Plans Y plan m
      → ((a : A) → Plans Y next (f a))
      → Plans Y (plan ++ next) (m >>= f)
  unfolding ◌>>=◌
  Plans-bind plan next m f first h = record {
    from = λ s. bind_out plan next f s (m s).0 (m s).1 (first.from s) h;
  }

  pub Plans-as :
      {A : Type 0} (plan next : List TaskKind) (m : Building Y A)
      → plan ≡ next
      → Plans Y plan m
      → Plans Y next m
  Plans-as plan next m e h = rw (← e) h

  -- What follows adds nothing.
  pub Plans-last :
      {A B : Type 0} (plan : List TaskKind) (m : Building Y A) (f : A → Building Y B)
      → Plans Y plan m
      → ((a : A) → Plans Y [] (f a))
      → Plans Y plan (m >>= f)
  Plans-last plan m f first h =
      Plans-as (plan ++ []) plan (m >>= f) (append-nil plan) (Plans-bind plan [] m f first h)

  -- Where the first step is a call that adds nothing, the rest may count on its result.
  pub Plans-attempt :
      {A B : Type 0} (plan : List TaskKind) (r : Result Y.Error A) (f : A → Building Y B)
      → ((a : A) → r ≡ ok a → Plans Y plan (f a))
      → Plans Y plan (attempt Y r >>= f)
  unfolding attempt ◌>>=◌
  Plans-attempt plan (ok a) f h = record { from = λ s. (h a refl).from s }
  Plans-attempt plan (err e) f h = record {
    from = λ s. stopped (failed e) [] plan refl refl (sym (append-nil (kinds Y s)));
  }

  pub Plans-expect :
      {A B : Type 0} (plan : List TaskKind) (o : Option A) (message : String) (f : A → Building Y B)
      → ((a : A) → Plans Y plan (f a))
      → Plans Y plan (expect Y o message >>= f)
  unfolding expect ◌>>=◌
  Plans-expect plan (some a) message f h = record { from = λ s. (h a).from s }
  Plans-expect plan none message f h = record {
    from = λ s. stopped (panic message) [] plan refl refl (sym (append-nil (kinds Y s)));
  }

  pub Plans-pure : {A : Type 0} (a : A) → Plans Y [] (pure a)
  unfolding pure
  Plans-pure a = record { from = λ s. ended a refl (sym (append-nil (kinds Y s))) }

  pub Plans-spawn :
      (name : String) (group : Option String) (body : Y.Task)
      → Plans Y (task false false name group ∷ []) (spawn Y name group body)
  unfolding spawn
  Plans-spawn name group body = record {
    from = λ s. ended tt refl (map-append (λ (e : Entry Y). e.kind) s (_ ∷ []));
  }

  pub Plans-spawn_essential_blocking :
      (name : String) (group : Option String) (body : Y.Task)
      → Plans Y (task true true name group ∷ []) (spawn_essential_blocking Y name group body)
  unfolding spawn_essential_blocking
  Plans-spawn_essential_blocking name group body = record {
    from = λ s. ended tt refl (map-append (λ (e : Entry Y). e.kind) s (_ ∷ []));
  }

  pub Plans-start_service_tasks :
      (r : Result Y.Error (Unit {0})) → Plans Y (service_tasks ∷ []) (start_service_tasks Y r)
  unfolding start_service_tasks
  Plans-start_service_tasks (ok a) = record {
    from = λ s. ended tt refl (map-append (λ (e : Entry Y). e.kind) s (_ ∷ []));
  }
  Plans-start_service_tasks (err e) = record {
    from = λ s. stopped (failed e) [] (service_tasks ∷ []) refl refl (sym (append-nil (kinds Y s)));
  }

  -- A part that is run only where a flag is set.
  pub Plans-if :
      {A : Type 0} (b : Bool) (plan : List TaskKind) (m n : Building Y A)
      → Plans Y plan m
      → Plans Y [] n
      → Plans Y (if b then plan else []) (if b then m else n)
  Plans-if true plan m n h k = h
  Plans-if false plan m n h k = k

  -- What a plan says of a run from the empty log.
  pub Adds-outcomes :
      {A : Type 0} (plan : List TaskKind) (r : Result (Stopped Y.Error) A) (t : List (Entry Y))
      → Adds Y plan [] r t
      → ((a : A) → r ≡ ok a → kinds Y t ≡ plan)
        × ((e : Stopped Y.Error) → r ≡ err e → (rest : List TaskKind) × (kinds Y t ++ rest ≡ plan))
  Adds-outcomes plan r t (ended a p k) = (λ b q. k, λ e q. absurd (ok-ne-err (sym p ∙ q)))
  Adds-outcomes plan r t (stopped e done rest p d k) =
      (λ b q. absurd (ok-ne-err (sym q ∙ p)), λ x q. (rest, ap (λ l. l ++ rest) k ∙ d))
