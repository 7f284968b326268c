-- ===== src/Runtime/Tracker.antt =====
-- flare-core-runtime/src/state/tracker.rs and the `StateEvent` of state/event.rs. An `Instant` is a
-- number of nanoseconds, and the readings of the monotonic clock are arguments. The lock makes each
-- operation atomic. The broadcast channel is the list of the events sent, oldest first.
pub mod Updates
pub mod History
pub mod Durations
mod Samples
use flare_server_core.Prelude.{
  ℕ, ◌-◌, Bool, true, false, Option, none, some, String, List, [], ◌∷◌, ◌++◌, all, any, filter, map,
  length, StringMap, get, insert, adjust, values, if◌then◌else◌,
}
use flare_server_core.Runtime.TaskState.{
  TaskState, running, failed, is_terminal, can_transition_to, state_eq,
}

pub record StateEvent : Type 0 where
  pub task_name : String
  pub old_state : TaskState
  pub new_state : TaskState
  pub timestamp : ℕ
  pub error : Option String

-- StateEvent::new
unfoldable pub new_event : String → TaskState → TaskState → ℕ → StateEvent
new_event task_name old_state new_state now = record {
  task_name = task_name;
  old_state = old_state;
  new_state = new_state;
  timestamp = now;
  error = none;
}

-- StateEvent::with_error
unfoldable pub with_error : StateEvent → String → StateEvent
with_error e error = record e { error = some error }

-- StateEvent::is_failure
unfoldable pub is_failure : StateEvent → Bool
is_failure e = state_eq e.new_state failed

-- StateEvent::is_terminal
unfoldable pub is_terminal_event : StateEvent → Bool
unfolding is_terminal
is_terminal_event e = is_terminal e.new_state

pub record TaskStateInfo : Type 0 where
  pub name : String
  pub state : TaskState
  pub state_changed_at : ℕ
  pub started_at : Option ℕ
  pub running_duration : Option ℕ

-- TaskStateInfo::new
unfoldable pub new_info : String → TaskState → ℕ → TaskStateInfo
new_info name initial_state now = record {
  name = name;
  state = initial_state;
  state_changed_at = now;
  started_at = none;
  running_duration = none;
}

started : Option ℕ → TaskState → ℕ → Option ℕ
started (some at) new_state now = some at
started none new_state now = if state_eq new_state running then some now else none

-- `Instant::duration_since` gives zero for a later instant.
ran : Option ℕ → ℕ → Option ℕ
ran none now = none
ran (some at) now = some (now - at)

-- TaskStateInfo::update_state
unfoldable pub update_info : TaskStateInfo → TaskState → ℕ → TaskStateInfo
unfolding started ran
update_info info new_state now =
    let started_at = started info.started_at new_state now in
    record info {
      state = new_state;
      state_changed_at = now;
      started_at = started_at;
      running_duration = if state_eq new_state running then ran started_at now else none;
    }

pub record StateTracker : Type 0 where
  pub tasks : StringMap TaskStateInfo
  pub events : List StateEvent

-- StateTracker::new
unfoldable pub new_tracker : StateTracker
new_tracker = record { tasks = []; events = [] }

-- StateTracker::register_task
unfoldable pub register_task : StateTracker → String → TaskState → ℕ → StateTracker
unfolding new_info
register_task t name initial_state now = record t {
  tasks = insert name (new_info name initial_state now) t.tasks;
}

-- The body that `update_state` and `update_state_with_error` share: `finish` completes the event.
update_with :
    (StateEvent → StateEvent)
    → StateTracker
    → String
    → TaskState
    → (now stamp : ℕ) → Option TaskStateInfo
    → StateTracker × Option StateEvent
unfolding update_info new_event
update_with finish t name new_state now stamp none = (t, none)
update_with finish t name new_state now stamp (some info) =
    if can_transition_to info.state new_state
    then (
      record t {
        tasks = adjust name (λ i. update_info i new_state now) t.tasks;
        events = t.events ++ finish (new_event name info.state new_state stamp) ∷ [];
      },
      some (finish (new_event name info.state new_state stamp)),
    )
    else (t, none)

-- StateTracker::update_state
unfoldable pub update_state :
    StateTracker → String → TaskState → (now stamp : ℕ) → StateTracker × Option StateEvent
unfolding update_with
update_state t name new_state now stamp =
    update_with (λ e. e) t name new_state now stamp (get name t.tasks)

-- StateTracker::update_state_with_error
unfoldable pub update_state_with_error :
    StateTracker → String → TaskState → String → (now stamp : ℕ) → StateTracker × Option StateEvent
unfolding update_with with_error
update_state_with_error t name new_state error now stamp =
    update_with (λ e. with_error e error) t name new_state now stamp (get name t.tasks)

-- StateTracker::get_state
unfoldable pub get_state : StateTracker → String → Option TaskStateInfo
get_state t name = get name t.tasks

-- StateTracker::get_all_states
unfoldable pub get_all_states : StateTracker → List TaskStateInfo
get_all_states t = values t.tasks

-- StateTracker::all_ready
unfoldable pub all_ready : StateTracker → Bool
all_ready t = all (λ info. state_eq info.state running) (values t.tasks)

-- StateTracker::has_failures
unfoldable pub has_failures : StateTracker → Bool
has_failures t = any (λ info. state_eq info.state failed) (values t.tasks)

-- StateTracker::get_failed_tasks
unfoldable pub get_failed_tasks : StateTracker → List String
get_failed_tasks t =
    map (λ info. info.name) (filter (λ info. state_eq info.state failed) (values t.tasks))

-- StateTracker::running_count
unfoldable pub running_count : StateTracker → ℕ
running_count t = length (filter (λ info. state_eq info.state running) (values t.tasks))
