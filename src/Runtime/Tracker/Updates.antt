-- ===== src/Runtime/Tracker/Updates.antt =====
-- What one update of the tracker of state/tracker.rs does, and how the queries agree.
use flare_server_core.Prelude.{
  ℕ, ◌≡◌, ◌≢◌, ◌↔◌, refl, ap, true, false, Option, none, some, String, List, [], ◌∷◌, ◌++◌, all,
  any, filter, map, length, length-filter-le, suc, get, values, arith, str_eq, get-adjust_self,
  get-adjust_ne, Bool-cases, Option-cases, inl, inr,
}
use flare_server_core.Runtime.TaskState.{TaskState, running, failed, can_transition_to, state_eq}
use flare_server_core.Runtime.Tracker.{
  StateEvent, StateTracker, TaskStateInfo, new_event, with_error, update_info, update_with,
  update_state, update_state_with_error, all_ready, has_failures, get_failed_tasks, get_state,
  running_count, get_all_states,
}

-- What an update to a registered task with an allowed transition does: the task has its new state,
-- no other task changes, and one event with both states is returned and sent.
pub record Applied (t t' : StateTracker) (name : String) (info : TaskStateInfo) (new : TaskState)
    (now : ℕ) (r : Option StateEvent) (e : StateEvent) : Type 0 where
  pub updated : get name t'.tasks ≡ some (update_info info new now)
  pub others : (j : String) → str_eq name j ≡ false → get j t'.tasks ≡ get j t.tasks
  pub returned : r ≡ some e
  pub sent : t'.events ≡ t.events ++ e ∷ []

update_with-Applied :
    (finish : StateEvent → StateEvent) (t : StateTracker) (name : String) (new : TaskState)
    (now stamp : ℕ) (info : TaskStateInfo)
    → get name t.tasks ≡ some info
    → can_transition_to info.state new ≡ true
    → let u = update_with finish t name new now stamp (get name t.tasks) in
      Applied t u.0 name info new now u.1 (finish (new_event name info.state new stamp))
unfolding update_with
update_with-Applied finish t name new now stamp info found allowed =
    rw (found, update_with, allowed)
      (record {
        updated = get-adjust_self name (λ i. update_info i new now) t.tasks info found;
        others = λ j other. get-adjust_ne name j (λ i. update_info i new now) t.tasks other;
        returned = refl;
        sent = refl;
      })

-- An update of a registered task by an allowed transition sets the task as `TaskStateInfo` does,
-- changes no other task, and returns and sends one event with both states, which has the error text
-- where `update_state_with_error` is called.
pub update_state-Applied :
    (t : StateTracker) (name error : String) (new : TaskState) (now stamp : ℕ)
    (info : TaskStateInfo)
    → get_state t name ≡ some info
    → can_transition_to info.state new ≡ true
    → let u = update_state t name new now stamp in
      let v = update_state_with_error t name new error now stamp in
      Applied t u.0 name info new now u.1 (new_event name info.state new stamp)
      × Applied t v.0 name info new now v.1 (with_error (new_event name info.state new stamp) error)
unfolding update_state update_state_with_error get_state
update_state-Applied t name error new now stamp info found allowed = (
  update_with-Applied (λ e. e) t name new now stamp info found allowed,
  update_with-Applied (λ e. with_error e error) t name new now stamp info found allowed,
)

update_with_refused :
    (finish : StateEvent → StateEvent) (t : StateTracker) (name : String) (new : TaskState)
    (now stamp : ℕ)
    → ((info : TaskStateInfo)
        → get name t.tasks ≡ some info
        → can_transition_to info.state new ≡ false)
    → update_with finish t name new now stamp (get name t.tasks) ≡ (t, none)
unfolding update_with
update_with_refused finish t name new now stamp h = elim (Option-cases (get name t.tasks)) [
  | inl missing ↦ rw (missing, update_with)
  | inr (info, found) ↦ rw (found, update_with, h info found)
]

-- An update of an unknown task, or by a transition that is not allowed, returns no event and
-- changes nothing; so it is for both of the update operations.
pub update_state_refused :
    (t : StateTracker) (name error : String) (new : TaskState) (now stamp : ℕ)
    → ((info : TaskStateInfo)
        → get_state t name ≡ some info
        → can_transition_to info.state new ≡ false)
    → (update_state t name new now stamp ≡ (t, none))
      × (update_state_with_error t name new error now stamp ≡ (t, none))
unfolding update_state update_state_with_error get_state
update_state_refused t name error new now stamp h = (
  update_with_refused (λ e. e) t name new now stamp h,
  update_with_refused (λ e. with_error e error) t name new now stamp h,
)

has_failures_list :
    (infos : List TaskStateInfo)
    → (any (λ info. state_eq info.state failed) infos ≡ true) ↔ (
        map
          (λ (info : TaskStateInfo). info.name)
          (filter (λ info. state_eq info.state failed) infos)
        ≢ [])
has_failures_list [] = (λ e. cc, λ h. absurd (h refl))
has_failures_list (x ∷ xs) = elim (Bool-cases (state_eq x.state failed)) [
  | inl bad ↦ rw bad (λ e c. cc, λ h. refl)
  | inr fine ↦ rw fine (has_failures_list xs)
]

-- `has_failures` holds exactly when `get_failed_tasks` names a task.
pub has_failures_iff : (t : StateTracker) → (has_failures t ≡ true) ↔ (get_failed_tasks t ≢ [])
unfolding has_failures get_failed_tasks
has_failures_iff t = has_failures_list (values t.tasks)

all_ready_list :
    (infos : List TaskStateInfo)
    → (all (λ info. state_eq info.state running) infos ≡ true) ↔ (
        length (filter (λ (info : TaskStateInfo). state_eq info.state running) infos)
        ≡ length infos)
all_ready_list [] = (λ e. refl, λ e. refl)
all_ready_list (x ∷ xs) = elim (Bool-cases (state_eq x.state running)) [
  | inl up ↦ rw up (λ e. ap suc ((all_ready_list xs).0 e), λ e. (all_ready_list xs).1 (omega arith))
  | inr down ↦ rw down (
    λ e. cc,
    λ e. absurd (
        omega (arith, length-filter-le (λ (info : TaskStateInfo). state_eq info.state running) xs)),
  )
]

-- All tasks are ready exactly when `running_count` counts all of them.
pub all_ready_iff :
    (t : StateTracker) → (all_ready t ≡ true) ↔ (running_count t ≡ length (get_all_states t))
unfolding all_ready running_count get_all_states
all_ready_iff t = all_ready_list (values t.tasks)
