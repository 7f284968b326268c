-- ===== src/Runtime/Manager.antt =====
-- flare-core-runtime/src/task/manager.rs: the tasks in the order of their dependencies, and their
-- runs. A task's future is the environment's: when it is polled and what it gives are events. The
-- steps of the tasks and of the loop that starts them come in any order that the code allows.
pub mod Phases
pub mod Runs
pub mod Sorted
mod Samples
use flare_server_core.Prelude.{
  ℕ, Bool, true, false, Option, none, some, String, List, [], ◌∷◌, Result, ok, err, map, StringMap,
  get, insert, remove, values, ltb, if◌then◌else◌,
}
use flare_server_core.Runtime.TaskState.{
  TaskState, pending, starting, running, stopping, stopped, failed,
}
use flare_server_core.Runtime.Tracker.{
  StateTracker, register_task, update_state, update_state_with_error, all_ready,
}
use flare_server_core.Runtime.Topology.{Item, topological_sort}

-- What the manager asks of a task.
pub record Task : Type 0 where
  pub name : String
  pub dependencies : List String

abbrev pub item : Task → Item
item t = (t.name, t.dependencies)

unfoldable pub by_name : List Task → StringMap Task → StringMap Task
by_name [] m = m
by_name (t ∷ ts) m = by_name ts (insert t.name t m)

-- A task that the map has is taken out of it.
unfoldable pub push_task : Option Task → List Task → List Task
push_task none ts = ts
push_task (some t) ts = t ∷ ts

-- The tasks under the names, and then those that are left.
unfoldable pub take_in_order : List String → StringMap Task → List Task
unfolding push_task
take_in_order [] m = values m
take_in_order (n ∷ ns) m = push_task (get n m) (take_in_order ns (remove n m))

unfoldable pub order_tasks :
    List Task → Result (List String) (List String) → Result (List Task) (List String)
unfolding take_in_order by_name
order_tasks tasks (err cycle) = err cycle
order_tasks tasks (ok names) = ok (take_in_order names (by_name tasks []))

unfoldable pub order_result :
    List Task
    → Option (Result (List String) (List String))
    → Option (Result (List Task) (List String))
unfolding order_tasks
order_result tasks none = none
order_result tasks (some r) = some (order_tasks tasks r)

-- TaskManager::sort_tasks; the error is that of a circular dependency
unfoldable pub sort_tasks :
    (StringMap ℕ → StringMap ℕ) → List Task → Option (Result (List Task) (List String))
unfolding order_result topological_sort
sort_tasks iterate tasks = order_result tasks (topological_sort iterate (map item tasks))

unfoldable pub register_all : List Task → ℕ → StateTracker → StateTracker
unfolding register_task
register_all [] now t = t
register_all (x ∷ xs) now t = register_all xs now (register_task t x.name pending now)

-- task::TaskResult
abbrev pub TaskResult : Type 0
TaskResult = Result {0, 0} Unit String

-- How far a task has come: waiting for the loop of start_all, spawned, polled, and done.
pub data Phase : Type 0 where
  waiting spawned polled : Phase
  done : TaskResult → Phase

-- The names that the loop of start_all has still to spawn, and the tasks.
pub record Manager : Type 0 where
  pub tracker : StateTracker
  pub queue : List String
  pub phases : StringMap Phase

unfoldable pub all_waiting : List Task → StringMap Phase
all_waiting [] = []
all_waiting (x ∷ xs) = (x.name, waiting) ∷ all_waiting xs

-- start_all up to the loop that spawns, on the sorted tasks
unfoldable pub registered_all : List Task → ℕ → StateTracker → Manager
unfolding register_all all_waiting
registered_all sorted now t = record {
  tracker = register_all sorted now t;
  queue = map (λ x. x.name) sorted;
  phases = all_waiting sorted;
}

-- A step, with the readings of the clock: the loop spawns its next task, a task is polled for the
-- first time, or its future is done.
pub data Event : Type 0 where
  spawn : (now stamp : ℕ) → Event
  poll : String → (now stamp : ℕ) → Event
  finish : String → TaskResult → (now stamp : ℕ) → Event

unfoldable pub advance : Manager → String → Phase → StateTracker → Manager
advance s name phase t = record s { tracker = t; phases = insert name phase s.phases }

-- The last update of a task.
unfoldable pub conclude_task : StateTracker → String → TaskResult → (now stamp : ℕ) → StateTracker
unfolding update_state update_state_with_error
conclude_task t name (ok _) now stamp = (update_state t name stopped now stamp).0
conclude_task t name (err e) now stamp = (update_state_with_error t name failed e now stamp).0

-- Each kind of step, on a task that is in the phase for it.
unfoldable pub spawn_task : Manager → String → (now stamp : ℕ) → Option Phase → Option Manager
unfolding advance update_state
spawn_task s name now stamp (some waiting) =
    some (advance s name spawned (update_state s.tracker name starting now stamp).0)
spawn_task s name now stamp _ = none

unfoldable pub poll_task : Manager → String → (now stamp : ℕ) → Option Phase → Option Manager
unfolding advance update_state
poll_task s name now stamp (some spawned) =
    some (advance s name polled (update_state s.tracker name running now stamp).0)
poll_task s name now stamp _ = none

unfoldable pub finish_task :
    Manager → String → TaskResult → (now stamp : ℕ) → Option Phase → Option Manager
unfolding advance conclude_task
finish_task s name r now stamp (some polled) =
    some (advance s name (done r) (conclude_task s.tracker name r now stamp))
finish_task s name r now stamp _ = none

unfoldable pub spawn_next : Manager → (now stamp : ℕ) → List String → Option Manager
unfolding spawn_task
spawn_next s now stamp [] = none
spawn_next s now stamp (name ∷ rest) =
    spawn_task (record s { queue = rest }) name now stamp (get name s.phases)

unfoldable pub step : Manager → Event → Option Manager
unfolding spawn_next poll_task finish_task
step s (spawn now stamp) = spawn_next s now stamp s.queue
step s (poll name now stamp) = poll_task s name now stamp (get name s.phases)
step s (finish name r now stamp) = finish_task s name r now stamp (get name s.phases)

unfoldable pub run : Manager → List Event → Option Manager
unfolding step
run s [] = some s
run s (e ∷ es) = elim (step s e) [ none ↦ none | some s' ↦ run s' es ]

-- One turn of wait_for_ready: ready, out of time, or asleep for another turn.
pub data Turn : Type 0 where
  ready startup_timeout sleeps : Turn

unfoldable pub ready_turn : StateTracker → (elapsed timeout : ℕ) → Turn
unfolding all_ready
ready_turn t elapsed timeout =
    if all_ready t then ready else if ltb timeout elapsed then startup_timeout else sleeps
