-- ===== src/Runtime/TaskState.antt =====
-- flare-core-runtime/src/task/state.rs: the life cycle of a task.
pub mod Runs
use flare_server_core.Prelude.{Bool, true, false}

pub data TaskState : Type 0 where
  pending starting running stopping stopped failed : TaskState

-- TaskState::is_terminal
unfoldable pub is_terminal : TaskState → Bool
is_terminal stopped = true
is_terminal failed = true
is_terminal _ = false

-- TaskState::can_transition_to
unfoldable pub can_transition_to : TaskState → TaskState → Bool
can_transition_to pending starting = true
can_transition_to starting running = true
can_transition_to starting failed = true
can_transition_to running stopping = true
can_transition_to running failed = true
can_transition_to stopping stopped = true
can_transition_to stopping failed = true
can_transition_to stopped _ = false
can_transition_to failed _ = false
can_transition_to _ _ = false

-- The derived `==`.
abbrev pub state_eq : TaskState → TaskState → Bool
state_eq pending pending = true
state_eq starting starting = true
state_eq running running = true
state_eq stopping stopping = true
state_eq stopped stopped = true
state_eq failed failed = true
state_eq _ _ = false
