-- ===== src/Runtime/Manager/Phases.antt =====
-- What the tracker shows of the tasks of manager.rs while they run.
use flare_server_core.Prelude.{
  ℕ, ◌≡◌, refl, sym, ap, ◌∙◌, subst, true, false, some, String, ok, err, get, get-insert, arith,
  str_eq, str_eq_iff, Bool-cases, inl, inr,
}
use flare_server_core.Runtime.TaskState.{
  TaskState, pending, starting, running, stopped, failed, can_transition_to,
}
use flare_server_core.Runtime.Tracker.{
  StateTracker, TaskStateInfo, update_info, update_state, update_state_with_error, get_state,
}
use flare_server_core.Runtime.Tracker.Updates.{Applied, update_state-Applied, update_state_refused}
use flare_server_core.Runtime.Manager.{
  TaskResult, Phase, waiting, spawned, polled, done, Manager, advance, conclude_task,
}

-- The state that the tracker shows of a task in a phase.
unfoldable pub state_of : Phase → TaskState
state_of waiting = pending
state_of spawned = starting
state_of polled = running
state_of (done (ok _)) = running
state_of (done (err e)) = failed

pub record Shows (t : StateTracker) (name : String) (st : TaskState) : Type 0 where
  pub info : TaskStateInfo
  pub found : get_state t name ≡ some info
  pub state : info.state ≡ st

-- Every task is shown in the state of its phase.
abbrev pub IsShown : Manager → Type 0
IsShown s =
    (name : String) (p : Phase) → get name s.phases ≡ some p → Shows s.tracker name (state_of p)

-- A tracker that shows a task in a state and the others as before.
pub record Moved (t t' : StateTracker) (name : String) (st : TaskState) : Type 0 where
  pub here : Shows t' name st
  pub others : (j : String) → str_eq name j ≡ false → get_state t' j ≡ get_state t j

Applied-Moved :
    (t t' : StateTracker) (name : String) (info : TaskStateInfo) (new : TaskState) (now : ℕ)
    (r e : _)
    → Applied t t' name info new now r e
    → Moved t t' name new
unfolding get_state update_info
Applied-Moved t t' name info new now r e a = record {
  here = record { info = update_info info new now; found = a.updated; state = refl };
  others = a.others;
}

pub update_state-Moved :
    (t : StateTracker) (name error : String) (old new : TaskState) (now stamp : ℕ)
    → Shows t name old
    → can_transition_to old new ≡ true
    → Moved t (update_state t name new now stamp).0 name new
      × Moved t (update_state_with_error t name new error now stamp).0 name new
update_state-Moved t name error old new now stamp shown allowed =
    let both =
      update_state-Applied t name error new now stamp shown.info shown.found
        (rw shown.state allowed) in
    (Applied-Moved _ _ _ _ _ _ _ _ both.0, Applied-Moved _ _ _ _ _ _ _ _ both.1)

-- A finished future leaves the state `running`, from which the update to `stopped` is refused, or
-- leads to `failed`.
pub conclude_task-Moved :
    (t : StateTracker) (name : String) (r : TaskResult) (now stamp : ℕ)
    → Shows t name running
    → Moved t (conclude_task t name r now stamp) name (state_of (done r))
unfolding conclude_task state_of can_transition_to
conclude_task-Moved t name (ok u) now stamp shown =
    let same = update_state_refused t name "" stopped now stamp (λ info found.
      let still : info.state ≡ running = ground (arith, found, shown.found, shown.state) in
      rw still refl) in
    subst (λ u. Moved t u.0 name running) (sym same.0)
      (record { here = shown; others = λ j apart. refl })
conclude_task-Moved t name (err e) now stamp shown =
    (update_state-Moved t name e running failed now stamp shown refl).1

pub some_inj : {a b : Manager} → some a ≡ some b → a ≡ b
some_inj {a} {b} e = ground (arith, e)

pub advance-IsShown :
    (s : Manager) (name : String) (p : Phase) (t : StateTracker)
    → IsShown s
    → Moved s.tracker t name (state_of p)
    → IsShown (advance s name p t)
unfolding advance get_state
advance-IsShown s name p t shown moved j q there = elim (Bool-cases (str_eq name j)) [
  | inl here ↦
      let same : name ≡ j = (str_eq_iff name j).0 here in
      let phase : some p ≡ some q = sym (get-insert name j p s.phases ∙ rw here refl) ∙ there in
      let phases : p ≡ q = ground (arith, phase) in
      subst (Shows t j) (ap state_of phases) (subst (λ k. Shows t k (state_of p)) same moved.here)
  | inr apart ↦
      let before = shown j q (sym (get-insert name j p s.phases ∙ rw apart refl) ∙ there) in
      record {
        info = before.info;
        found = moved.others j apart ∙ before.found;
        state = before.state;
      }
]
