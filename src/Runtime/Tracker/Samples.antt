-- ===== src/Runtime/Tracker/Samples.antt =====
-- A tracked task, and what tracker.rs does with it.
use flare_server_core.Prelude.{
  ℕ, ◌+◌, ◌≤◌, ◌≡◌, ◌≢◌, ◌⊎◌, refl, some, none, List, [], ◌∷◌, ◌++◌, map, occurrences, get, insert,
  adjust,
}
use flare_server_core.Runtime.TaskState.{
  TaskState, pending, starting, running, stopping, stopped, can_transition_to,
}
use flare_server_core.Runtime.TaskState.Runs.{Run, stay, move, Run-orderly}
use flare_server_core.Runtime.Tracker.{
  StateTracker, StateEvent, TaskStateInfo, new_tracker, register_task, get_state, update_state,
}
use flare_server_core.Runtime.Tracker.History.{
  Update, Outcome, apply_all, apply_all-Outcome, apply_all-events,
}
use flare_server_core.Runtime.Tracker.Durations.{running_duration-zero}

abbrev orderly : List TaskState
orderly = starting ∷ running ∷ stopping ∷ stopped ∷ []

orderly-Run : Run pending orderly stopped
unfolding can_transition_to
orderly-Run = move refl (move refl (move refl (move refl stay)))

abbrev tracker : StateTracker
tracker = record {
  tasks =
      (
        "api",
        record {
          name = "api";
          state = pending;
          state_changed_at = 5;
          started_at = none;
          running_duration = none;
        },
      )
      ∷ [];
  events = [];
}

abbrev api : TaskStateInfo
api = record {
  name = "api";
  state = pending;
  state_changed_at = 5;
  started_at = none;
  running_duration = none;
}

abbrev update : TaskState → ℕ → Update
update s now = record { name = "api"; new_state = s; error = none; now = now; stamp = now + 1 }

abbrev updates : List Update
updates = update starting 6 ∷ update stopped 7 ∷ update running 8 ∷ update running 20 ∷ []

Run-orderly_example : ◌≡◌ {A = List TaskState} orderly orderly
Run-orderly_example = Run-orderly orderly-Run

apply_all-Outcome_example : Outcome "api" tracker (apply_all tracker updates) api
unfolding get_state get
apply_all-Outcome_example = apply_all-Outcome updates tracker "api" api refl

apply_all-events_example :
    (log : List StateEvent) × ((apply_all tracker updates).events ≡ [] ++ log)
    × (occurrences "api" (map (λ e. e.task_name) log) ≤ 4)
unfolding get_state get
apply_all-events_example = apply_all-events updates tracker "api" api refl

running_duration-zero_example :
    let i : TaskStateInfo = record {
      name = "api";
      state = running;
      state_changed_at = 8;
      started_at = some 8;
      running_duration = some 0;
    } in
    ((i.state ≡ running) × (i.running_duration ≡ some 0))
    ⊎ ((i.state ≢ running) × (i.running_duration ≡ none))
unfolding get_state get insert adjust apply_all register_task new_tracker update_state
    can_transition_to
running_duration-zero_example =
    running_duration-zero new_tracker "api" 5 updates
      (record {
        name = "api";
        state = running;
        state_changed_at = 8;
        started_at = some 8;
        running_duration = some 0;
      })
      refl
