-- ===== src/Node/Service/Logs.antt =====
-- node/src/service.rs: what a part of the construction gives and which entries it adds to the log,
-- where it ends, by rules for its steps.
use mathlib.Core.Path.{subst}
use nexusguild.Base.{
  String, Bool, true, false, if◌then◌else◌, Option, none, some, Result, ok, err, ◌≡◌, refl, ◌∙◌, ap,
  ok-inj, ok-ne-err, sym, List, [], ◌∷◌, ◌++◌, append_assoc, append-nil, ◌>>=◌, pure,
}
use nexusguild.Node.Service.Host.{Types}
use nexusguild.Node.Service.Log.{
  Building, Entry, Stopped, task, service_tasks, attempt, expect, spawn, spawn_essential_blocking,
  start_service_tasks,
}

module _ (Y : Types) where
  -- Whatever was spawned before, the part adds entries to the log, and they and what it gives are
  -- related.
  pub record Logs {A : Type 0} (P : A → List (Entry Y) → Type 0) (m : Building Y A) : Type 0 where
    pub from :
        (s : List (Entry Y)) (a : A)
        → (m s).0 ≡ ok a
        → (added : List (Entry Y)) × ((m s).1 ≡ s ++ added) × P a added

  -- The entries of the two ways to spawn, and of the tasks of the service.
  abbrev pub entry : String → Option String → Y.Task → Entry Y
  entry name group body = record { kind = task false false name group; body = some body }

  abbrev pub essential_entry : String → Option String → Y.Task → Entry Y
  essential_entry name group body = record { kind = task true true name group; body = some body }

  abbrev pub service_entry : Entry Y
  service_entry = record { kind = service_tasks; body = none }

module _ (Y : Types) {B : Type 0} (R : B → List (Entry Y) → Type 0) where
  joined :
      (s t u first second : List (Entry Y))
      → t ≡ s ++ first
      → u ≡ t ++ second
      → u ≡ s ++ (first ++ second)
  joined s t u first second e h = h ∙ ap (λ l. l ++ second) e ∙ append_assoc s first second

  bind_out :
      {A : Type 0} (P : A → List (Entry Y) → Type 0) (f : A → Building Y B) (s : List (Entry Y))
      (r : Result (Stopped Y.Error) A) (t : List (Entry Y))
      → ((a : A) → r ≡ ok a → (added : List (Entry Y)) × (t ≡ s ++ added) × P a added)
      → ((a : A) (first : List (Entry Y))
          → P a first
          → Logs Y (λ b second. R b (first ++ second)) (f a))
      → (b : B)
      → let out = ◌>>=◌ {A = A} {B = B} (λ _. (r, t)) f t in
        out.0 ≡ ok b → (added : List (Entry Y)) × (out.1 ≡ s ++ added) × R b added
  unfolding ◌>>=◌
  bind_out P f s (ok a) t first h b q =
      let (one, e, p) = first a refl in
      let (two, d, l) = (h a one p).from t b q in (one ++ two, joined s t (f a t).1 one two e d, l)
  bind_out P f s (err x) t first h b q = absurd (ok-ne-err (sym q))

  pub Logs-bind :
      {A : Type 0} (P : A → List (Entry Y) → Type 0) (m : Building Y A) (f : A → Building Y B)
      → Logs Y P m
      → ((a : A) (first : List (Entry Y))
          → P a first
          → Logs Y (λ b second. R b (first ++ second)) (f a))
      → Logs Y R (m >>= f)
  unfolding ◌>>=◌
  Logs-bind P m f first h = record { from = λ s. bind_out P f s (m s).0 (m s).1 (first.from s) h }

  pub Logs-attempt :
      {A : Type 0} (r : Result Y.Error A) (f : A → Building Y B)
      → ((a : A) → r ≡ ok a → Logs Y R (f a))
      → Logs Y R (attempt Y r >>= f)
  unfolding attempt ◌>>=◌
  Logs-attempt (ok a) f h = record { from = (h a refl).from }
  Logs-attempt (err x) f h = record { from = λ s b q. absurd (ok-ne-err (sym q)) }

  pub Logs-expect :
      {A : Type 0} (o : Option A) (message : String) (f : A → Building Y B)
      → ((a : A) → o ≡ some a → Logs Y R (f a))
      → Logs Y R (expect Y o message >>= f)
  unfolding expect ◌>>=◌
  Logs-expect (some a) message f h = record { from = (h a refl).from }
  Logs-expect none message f h = record { from = λ s b q. absurd (ok-ne-err (sym q)) }

  pub Logs-pure : (b : B) → R b [] → Logs Y R (pure b)
  unfolding pure
  Logs-pure b p = record {
    from = λ s c q. ([], sym (append-nil s), subst (λ c. R c []) (ok-inj q) p);
  }

module _ (Y : Types) (R : Unit {0} → List (Entry Y) → Type 0) where
  pub Logs-spawn :
      (name : String) (group : Option String) (body : Y.Task)
      → R tt (entry Y name group body ∷ [])
      → Logs Y R (spawn Y name group body)
  unfolding spawn
  Logs-spawn name group body p = record { from = λ s b q. (_, refl, p) }

  pub Logs-spawn_essential_blocking :
      (name : String) (group : Option String) (body : Y.Task)
      → R tt (essential_entry Y name group body ∷ [])
      → Logs Y R (spawn_essential_blocking Y name group body)
  unfolding spawn_essential_blocking
  Logs-spawn_essential_blocking name group body p = record { from = λ s b q. (_, refl, p) }

  pub Logs-start_service_tasks :
      (r : Result Y.Error (Unit {0}))
      → (r ≡ ok tt → R tt (service_entry Y ∷ []))
      → Logs Y R (start_service_tasks Y r)
  unfolding start_service_tasks
  Logs-start_service_tasks (ok _) p = record { from = λ s b q. (_, refl, p refl) }
  Logs-start_service_tasks (err x) p = record { from = λ s b q. absurd (ok-ne-err (sym q)) }

  pub Logs-if :
      (b : Bool) (m k : Building Y (Unit {0}))
      → (b ≡ true → Logs Y R m)
      → (b ≡ false → Logs Y R k)
      → Logs Y R (if b then m else k)
  Logs-if true m k h g = h refl
  Logs-if false m k h g = g refl
