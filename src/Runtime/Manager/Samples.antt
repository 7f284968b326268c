-- ===== src/Runtime/Manager/Samples.antt =====
-- Two tasks of manager.rs, one behind the other.
use flare_server_core.Prelude.{
  ◌≡◌, refl, Option, some, List, [], ◌∷◌, map, ok, err, get, insert, adjust, remove,
}
use flare_server_core.Runtime.Tracker.{new_tracker}
use flare_server_core.Runtime.Manager.{
  Task, TaskResult, done, Manager, Event, spawn, poll, finish, registered_all, register_all, run,
  step, all_waiting, spawn_next, spawn_task, poll_task, finish_task, advance, conclude_task,
  sort_tasks, item, take_in_order,
}
use flare_server_core.Runtime.Topology.Sound.{IsWalk}
use flare_server_core.Runtime.Topology.Complete.{IsOrderOf}
use flare_server_core.Runtime.Manager.Sorted.{sort_tasks-IsOrderOf}
use flare_server_core.Runtime.Manager.Phases.{Shows, state_of}
use flare_server_core.Runtime.Manager.Runs.{run-registered_all-IsShown}

abbrev sorted : List Task
sorted =
    record { name = "db"; dependencies = [] }
    ∷ record { name = "api"; dependencies = "db" ∷ [] }
    ∷ []

abbrev no_error : TaskResult
no_error = ok tt

abbrev events : List Event
events =
    spawn 10 10
    ∷ poll "db" 11 11
    ∷ spawn 12 12
    ∷ finish "db" no_error 13 13
    ∷ poll "api" 14 14
    ∷ finish "api" (err "port in use") 15 15
    ∷ []

abbrev reached : Option Manager
reached = run (registered_all sorted 5 new_tracker) events

ran : (s : Manager) × (reached ≡ some s) × (get "db" s.phases ≡ some (done no_error))
unfolding run registered_all new_tracker step spawn_next spawn_task poll_task finish_task advance
    conclude_task register_all all_waiting get insert
ran = (_, refl, refl)

run-registered_all-IsShown_example : Shows ran.0.tracker "db" (state_of (done no_error))
run-registered_all-IsShown_example =
    run-registered_all-IsShown sorted 5 new_tracker events ran.0 "db" (done no_error) ran.1 ran.2

abbrev added : List Task
added =
    record { name = "api"; dependencies = "db" ∷ [] }
    ∷ record { name = "db"; dependencies = [] }
    ∷ []

sort_tasks-added : sort_tasks (λ m. m) added ≡ some (ok sorted)
unfolding sort_tasks get insert adjust remove take_in_order
sort_tasks-added = refl

in_order-IsWalk : IsWalk (λ m. m)
in_order-IsWalk m p = refl

sort_tasks-IsOrderOf_example : IsOrderOf (map item added) (map (λ t. t.name) sorted)
sort_tasks-IsOrderOf_example =
    sort_tasks-IsOrderOf (λ m. m) added sorted in_order-IsWalk sort_tasks-added
