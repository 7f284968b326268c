-- ===== src/Runtime/TaskState/Runs.antt =====
-- Sequences of allowed transitions between the states of task/state.rs.
use flare_server_core.Prelude.{
  ℕ, ◌+◌, ◌≤◌, ◌≡◌, refl, subst, ◌≢◌, true, List, [], ◌∷◌, arith, length,
}
use flare_server_core.Runtime.TaskState.{
  TaskState, pending, starting, running, stopping, stopped, failed, is_terminal, can_transition_to,
}

-- `Run s path t`: the allowed transitions through the states of `path` lead from `s` to `t`.
pub data Run : TaskState → List TaskState → TaskState → Type 0 where
  stay : {s : TaskState} → Run s [] s
  move :
      {s u t : TaskState} {path : List TaskState}
      → can_transition_to s u ≡ true
      → Run u path t
      → Run s (u ∷ path) t

-- How many transitions a state may still be from the end.
abbrev pub steps_left : TaskState → ℕ
steps_left pending = 4
steps_left starting = 3
steps_left running = 2
steps_left stopping = 1
steps_left stopped = 0
steps_left failed = 0

pub transition_descends :
    (s t : TaskState) → can_transition_to s t ≡ true → steps_left t + 1 ≤ steps_left s
unfolding can_transition_to
transition_descends s t h = ground arith

-- A task changes its state at most four times, and a task in a terminal state never again.
pub length-Run :
    {s t : TaskState} {path : List TaskState}
    → Run s path t
    → length path + steps_left t ≤ steps_left s
length-Run stay = omega arith
length-Run {s = s} (move {u = u} h r) = omega (arith, length-Run r, transition_descends s u h)

pub Run-terminal :
    {s t : TaskState} {path : List TaskState}
    → Run s path t
    → is_terminal s ≡ true
    → (path ≡ []) × (t ≡ s)
unfolding is_terminal can_transition_to
Run-terminal stay h = (refl, refl)
Run-terminal {s = s} (move {u = u} e r) h = ground arith

-- The states that still lie between a state and an orderly stop.
abbrev pub line : TaskState → List TaskState
line pending = starting ∷ running ∷ stopping ∷ stopped ∷ []
line starting = running ∷ stopping ∷ stopped ∷ []
line running = stopping ∷ stopped ∷ []
line stopping = stopped ∷ []
line stopped = []
line failed = []

Run-failed : {t : TaskState} {path : List TaskState} → Run failed path t → t ≡ failed
unfolding is_terminal
Run-failed r = (Run-terminal r refl).1

line_step : (s u : TaskState) → can_transition_to s u ≡ true → u ≢ failed → line s ≡ u ∷ line u
unfolding can_transition_to
line_step s u h n = ground arith

Run-line : {s t : TaskState} {path : List TaskState} → Run s path t → t ≡ stopped → path ≡ line s
Run-line stay e = ground arith
Run-line {s = s} {t = t} (move {u = u} {path = path} h r) e =
    let ih = Run-line r e in
    let alive : u ≢ failed = λ f. not_failed u t path f r e in cc (ih, line_step s u h alive)
  where
    not_failed : (u t : TaskState) (p : List TaskState) → u ≡ failed → Run u p t → t ≡ stopped → ⊥
    not_failed u t p f r e = let stuck : t ≡ failed = Run-failed (subst (λ x. Run x p t) f r) in cc

-- The only way of allowed transitions from `Pending` to `Stopped` is through `Starting`, `Running` and `Stopping`.
pub Run-orderly :
    {path : List TaskState}
    → Run pending path stopped
    → path ≡ starting ∷ running ∷ stopping ∷ stopped ∷ []
Run-orderly r = Run-line r refl
