-- ===== src/Runtime/Manager/Runs.antt =====
-- The runs of the tasks of manager.rs, step by step.
use flare_server_core.Prelude.{
  ℕ, ◌≡◌, ◌≢◌, refl, sym, ap, ◌∙◌, subst, Option, none, some, String, List, [], ◌∷◌, get,
  get-insert, arith, str_eq, str_eq_iff, str_eq_self, Bool-cases, Option-cases, inl, inr,
}
use flare_server_core.Runtime.TaskState.{pending, starting, running, can_transition_to}
use flare_server_core.Runtime.Tracker.{StateTracker, register_task, new_info, get_state}
use flare_server_core.Runtime.Manager.{
  Task, TaskResult, Phase, waiting, spawned, polled, done, Manager, Event, spawn, poll, finish,
  register_all, all_waiting, registered_all, spawn_task, poll_task, finish_task, spawn_next, step,
  run,
}
use flare_server_core.Runtime.Manager.Phases.{
  state_of, Shows, IsShown, update_state-Moved, conclude_task-Moved, advance-IsShown, some_inj,
}

spawn_task-IsShown :
    (s s' : Manager) (name : String) (now stamp : ℕ) (p : Option Phase)
    → IsShown s
    → get name s.phases ≡ p
    → spawn_task s name now stamp p ≡ some s'
    → IsShown s'
unfolding spawn_task state_of can_transition_to
spawn_task-IsShown s s' name now stamp (some waiting) shown at e = subst IsShown (some_inj e) (
    advance-IsShown s name spawned _ shown
      (update_state-Moved s.tracker name "" pending starting now stamp (shown name waiting at)
        refl).0)
spawn_task-IsShown s s' name now stamp none shown at e = cc
spawn_task-IsShown s s' name now stamp (some spawned) shown at e = cc
spawn_task-IsShown s s' name now stamp (some polled) shown at e = cc
spawn_task-IsShown s s' name now stamp (some (done r)) shown at e = cc

poll_task-IsShown :
    (s s' : Manager) (name : String) (now stamp : ℕ) (p : Option Phase)
    → IsShown s
    → get name s.phases ≡ p
    → poll_task s name now stamp p ≡ some s'
    → IsShown s'
unfolding poll_task state_of can_transition_to
poll_task-IsShown s s' name now stamp (some spawned) shown at e = subst IsShown (some_inj e) (
    advance-IsShown s name polled _ shown
      (update_state-Moved s.tracker name "" starting running now stamp (shown name spawned at)
        refl).0)
poll_task-IsShown s s' name now stamp none shown at e = cc
poll_task-IsShown s s' name now stamp (some waiting) shown at e = cc
poll_task-IsShown s s' name now stamp (some polled) shown at e = cc
poll_task-IsShown s s' name now stamp (some (done r)) shown at e = cc

finish_task-IsShown :
    (s s' : Manager) (name : String) (r : TaskResult) (now stamp : ℕ) (p : Option Phase)
    → IsShown s
    → get name s.phases ≡ p
    → finish_task s name r now stamp p ≡ some s'
    → IsShown s'
unfolding finish_task state_of
finish_task-IsShown s s' name r now stamp (some polled) shown at e = subst IsShown (some_inj e) (
    advance-IsShown s name (done r) _ shown
      (conclude_task-Moved s.tracker name r now stamp (shown name polled at)))
finish_task-IsShown s s' name r now stamp none shown at e = cc
finish_task-IsShown s s' name r now stamp (some waiting) shown at e = cc
finish_task-IsShown s s' name r now stamp (some spawned) shown at e = cc
finish_task-IsShown s s' name r now stamp (some (done q)) shown at e = cc

spawn_next-IsShown :
    (s s' : Manager) (now stamp : ℕ) (queue : List String)
    → IsShown s
    → spawn_next s now stamp queue ≡ some s'
    → IsShown s'
unfolding spawn_next
spawn_next-IsShown s s' now stamp [] shown e = cc
spawn_next-IsShown s s' now stamp (name ∷ rest) shown e =
    spawn_task-IsShown (record s { queue = rest }) s' name now stamp _ shown refl e

step-IsShown : (s s' : Manager) (e : Event) → IsShown s → step s e ≡ some s' → IsShown s'
unfolding step
step-IsShown s s' (spawn now stamp) shown e = spawn_next-IsShown s s' now stamp s.queue shown e
step-IsShown s s' (poll name now stamp) shown e =
    poll_task-IsShown s s' name now stamp _ shown refl e
step-IsShown s s' (finish name r now stamp) shown e =
    finish_task-IsShown s s' name r now stamp _ shown refl e

then_run : List Event → Option Manager → Option Manager
then_run es none = none
then_run es (some s) = run s es

not_none : {A : Type 0} {a : A} → none ≢ some a
not_none e = cc

run-IsShown : (s s' : Manager) (es : List Event) → IsShown s → run s es ≡ some s' → IsShown s'
unfolding run then_run
run-IsShown s s' [] shown e = subst IsShown (some_inj e) shown
run-IsShown s s' (x ∷ es) shown e = elim (Option-cases (step s x)) [
  | inl stuck ↦ absurd (not_none (sym (ap (then_run es) stuck) ∙ e))
  | inr (m, moved) ↦
      run-IsShown m s' es (step-IsShown s m x shown moved) (sym (ap (then_run es) moved) ∙ e)
]

register_task-Shows :
    (t : StateTracker) (k name : String) (now : ℕ)
    → Shows t name pending
    → Shows (register_task t k pending now) name pending
unfolding register_task new_info get_state
register_task-Shows t k name now shown = elim (Bool-cases (str_eq k name)) [
  | inl here ↦ record {
    info = new_info k pending now;
    found = get-insert k name _ t.tasks ∙ rw here refl;
    state = refl;
  }
  | inr apart ↦ record {
    info = shown.info;
    found = get-insert k name _ t.tasks ∙ rw apart shown.found;
    state = shown.state;
  }
]

register_task_new :
    (t : StateTracker) (k : String) (now : ℕ) → Shows (register_task t k pending now) k pending
unfolding register_task new_info get_state
register_task_new t k now = record {
  info = new_info k pending now;
  found = get-insert k k _ t.tasks ∙ rw (str_eq_self k) refl;
  state = refl;
}

register_all-Shows :
    (xs : List Task) (now : ℕ) (t : StateTracker) (name : String)
    → Shows t name pending
    → Shows (register_all xs now t) name pending
unfolding register_all
register_all-Shows [] now t name shown = shown
register_all-Shows (x ∷ xs) now t name shown =
    register_all-Shows xs now (register_task t x.name pending now) name
      (register_task-Shows t x.name name now shown)

registered_all-IsShown :
    (xs : List Task) (now : ℕ) (t : StateTracker) (name : String) (p : Phase)
    → get name (all_waiting xs) ≡ some p
    → Shows (register_all xs now t) name (state_of p)
unfolding register_all all_waiting get state_of
registered_all-IsShown [] now t name p there = cc
registered_all-IsShown (x ∷ xs) now t name p there = elim (Bool-cases (str_eq x.name name)) [
  | inl here ↦
      let phase : waiting ≡ p = ground (arith, there, here) in
      let same : x.name ≡ name = (str_eq_iff x.name name).0 here in
      subst
        (λ q. Shows (register_all xs now (register_task t x.name pending now)) name (state_of q))
        phase
        (register_all-Shows xs now _ name (
          subst (λ k. Shows (register_task t x.name pending now) k pending) same
            (register_task_new t x.name now)))
  | inr apart ↦ registered_all-IsShown xs now _ name p (ground (arith, there, apart))
]

-- In whatever order the tasks are spawned, polled and finished, the tracker shows each of them in the
-- state of its phase: pending before the loop comes to it, starting from then on, running from its
-- first poll, failed after an error; and after a success it still shows it as running, since the
-- update from running to stopped is refused.
pub run-registered_all-IsShown :
    (sorted : List Task) (now : ℕ) (t : StateTracker) (es : List Event) (s : Manager)
    (name : String) (p : Phase)
    → run (registered_all sorted now t) es ≡ some s
    → get name s.phases ≡ some p
    → Shows s.tracker name (state_of p)
unfolding registered_all
run-registered_all-IsShown sorted now t es s name p ran there =
    run-IsShown (registered_all sorted now t) s es
      (λ n q at. registered_all-IsShown sorted now t n q at) ran name p there
