-- ===== src/Runtime/Service/Cleanup.antt =====
-- Nothing of runtime.rs outlives what it depends on.
use flare_server_core.Prelude.{
  ◌≡◌, Bool, true, false, not, ◌&&◌, Option, none, some, String, List, [], ◌∷◌, any, Result, ok,
  err,
}
use flare_server_core.Runtime.Service.{
  Call, start_tasks, wait_ready, register, start_monitor, wait_shutdown, stop_monitor, deregister,
  stop_tasks, drop_tasks, Environment,
}

-- What is there: the tasks, a registration, the monitor.
pub record Holdings : Type 0 where
  pub tasks : Bool
  pub registered : Bool
  pub monitor : Bool

abbrev pub nothing : Holdings
nothing = record { tasks = false; registered = false; monitor = false }

unfoldable pub is_ok {ℓ} : {A : Type ℓ} → Result A String → Bool
is_ok (ok _) = true
is_ok (err e) = false

unfoldable pub has_registry : Result Bool String → Bool
has_registry (ok b) = b
has_registry (err e) = false

when : Bool → Holdings → Option Holdings
when true h = some h
when false h = none

-- What a call makes of the holdings, where it is in order: the tasks are there before all else and
-- until after all else, and the monitor stops before the registration ends. The environment tells
-- whether the start and the registration gave anything.
unfoldable pub hold : Environment → Call → Holdings → Option Holdings
unfolding when is_ok has_registry
hold e start_tasks h = when (not h.tasks) (record h { tasks = is_ok e.started })
hold e wait_ready h = when h.tasks h
hold e register h =
    when (h.tasks && not h.registered) (record h { registered = has_registry e.registration })
hold e start_monitor h = when (h.tasks && not h.monitor) (record h { monitor = true })
hold e wait_shutdown h = when h.tasks h
hold e stop_monitor h = when h.monitor (record h { monitor = false })
hold e deregister h = when (h.registered && not h.monitor) (record h { registered = false })
hold e stop_tasks h =
    when (h.tasks && not h.registered && not h.monitor) (record h { tasks = false })
hold e drop_tasks h =
    when (h.tasks && not h.registered && not h.monitor) (record h { tasks = false })

unfoldable pub hold_all : Environment → List Call → Holdings → Option Holdings
unfolding hold
hold_all e [] h = some h
hold_all e (c ∷ cs) h = elim (hold e c h) [ none ↦ none | some h' ↦ hold_all e cs h' ]

abbrev pub is_drop : Call → Bool
is_drop drop_tasks = true
is_drop _ = false

-- A run in order, after which nothing is left, and whether it aborts tasks that it does not stop.
abbrev pub IsClean : Environment → List Call → Type 0
IsClean e calls =
    (hold_all e calls nothing ≡ some nothing)
    × (any is_drop calls ≡ (is_ok e.started && not (is_ok e.ready)))
