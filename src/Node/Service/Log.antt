-- ===== src/Node/Service/Log.antt =====
-- node/src/service.rs: the tasks that the task manager is given, in the order in which they are
-- given, and the ways in which the service stops before it is built.
use nexusguild.Base.{
  String, Bool, true, false, Option, none, some, Result, ok, err, Stateful, List, [], ◌∷◌, ◌++◌,
  map,
}
use nexusguild.Node.Service.Host.{Types}

-- What is said of a task when it is spawned: whether the node stops if it ends, whether it blocks
-- its thread, its name and its group. `service_tasks` stands for those that `spawn_tasks` starts.
pub data TaskKind : Type 0 where
  task : Bool → Bool → String → Option String → TaskKind
  service_tasks : TaskKind

-- An error that is returned, or the message of a panic.
pub data Stopped (E : Type 0) : Type 0 where
  failed : E → Stopped E
  panic : String → Stopped E

module _ (Y : Types) where
  -- An entry is a task with its kind; what `spawn_tasks` starts is not seen.
  pub record Entry : Type 0 where
    pub kind : TaskKind
    pub body : Option Y.Task

  abbrev pub Building : Type 0 → Type 0
  Building A = Stateful (List Entry) (Stopped Y.Error) A

  -- `r?`
  unfoldable pub attempt : {A : Type 0} → Result Y.Error A → Building A
  attempt (ok a) log = (ok a, log)
  attempt (err e) log = (err (failed e), log)

  -- `o.expect(message)`
  unfoldable pub expect : {A : Type 0} → Option A → String → Building A
  expect (some a) message log = (ok a, log)
  expect none message log = (err (panic message), log)

  -- `spawn_handle().spawn(name, group, body)`
  unfoldable pub spawn : String → Option String → Y.Task → Building (Unit {0})
  spawn name group body log =
      (ok tt, log ++ record { kind = task false false name group; body = some body } ∷ [])

  -- `spawn_essential_handle().spawn_blocking(name, group, body)`
  unfoldable pub spawn_essential_blocking : String → Option String → Y.Task → Building (Unit {0})
  spawn_essential_blocking name group body log =
      (ok tt, log ++ record { kind = task true true name group; body = some body } ∷ [])

  -- The tasks of `sc_service::spawn_tasks`, which have all started if it returns `Ok`. If it fails
  -- some of them may have started; which ones is not seen from here, and no entry records them.
  unfoldable pub start_service_tasks : Result Y.Error (Unit {0}) → Building (Unit {0})
  start_service_tasks (ok _) log = (ok tt, log ++ record { kind = service_tasks; body = none } ∷ [])
  start_service_tasks (err e) log = (err (failed e), log)

  abbrev pub kinds : List Entry → List TaskKind
  kinds = map (λ e. e.kind)
