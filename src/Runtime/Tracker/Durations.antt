-- ===== src/Runtime/Tracker/Durations.antt =====
-- The times that the tracker of state/tracker.rs keeps for a task.
use flare_server_core.Prelude.{
  ℕ, ◌≡◌, ◌≢◌, refl, ◌∙◌, true, Option, none, some, String, List, [], ◌∷◌, get, arith, str_eq,
  str_eq_iff, get-insert, str_eq_self, Bool-cases, inl, inr, ◌⊎◌,
}
use flare_server_core.Runtime.TaskState.{
  TaskState, pending, starting, running, stopping, stopped, failed, can_transition_to,
}
use flare_server_core.Runtime.Tracker.{
  StateTracker, TaskStateInfo, new_info, update_info, get_state, register_task,
}
use flare_server_core.Runtime.Tracker.History.{Update, apply, apply_all, apply_cases}

-- A task that has not run yet has no start time, and a running one has run for 0 nanoseconds.
abbrev pub IsTimed : TaskState → Option ℕ → Option ℕ → Type 0
IsTimed pending at ran = (at ≡ none) × (ran ≡ none)
IsTimed starting at ran = (at ≡ none) × (ran ≡ none)
IsTimed running at ran = ran ≡ some 0
IsTimed stopping at ran = ran ≡ none
IsTimed stopped at ran = ran ≡ none
IsTimed failed at ran = ran ≡ none

update_info-IsTimed :
    (info : TaskStateInfo) (s new : TaskState) (now : ℕ)
    → info.state ≡ s
    → can_transition_to s new ≡ true
    → IsTimed s info.started_at info.running_duration
    → let i = update_info info new now in IsTimed new i.started_at i.running_duration
unfolding update_info can_transition_to
update_info-IsTimed info pending starting now e h t = ground arith
update_info-IsTimed info starting running now e h t = ground arith
update_info-IsTimed info s new now e h t = ground arith

update_info_state-IsTimed :
    (info : TaskStateInfo) (new : TaskState) (now : ℕ)
    → can_transition_to info.state new ≡ true
    → IsTimed info.state info.started_at info.running_duration
    → let i = update_info info new now in IsTimed i.state i.started_at i.running_duration
unfolding update_info
update_info_state-IsTimed info new now h t = update_info-IsTimed info info.state new now refl h t

apply-IsTimed :
    (t : StateTracker) (u : Update) (name : String) (info : TaskStateInfo)
    → get name t.tasks ≡ some info
    → IsTimed info.state info.started_at info.running_duration
    → (i : TaskStateInfo) × (get name (apply t u).tasks ≡ some i)
      × IsTimed i.state i.started_at i.running_duration
apply-IsTimed t u name info found timed = elim (apply_cases t u) [
  | inl same ↦ (info, rw same found, timed)
  | inr (other, st) ↦ elim (Bool-cases (str_eq u.name name)) [
    | inl hit ↦
        let here : u.name ≡ name = (str_eq_iff u.name name).0 hit in
        let same : other ≡ info = ground (arith, st.found, found, here) in
        (
          update_info other u.new_state u.now,
          rw (← here) st.updated,
          update_info_state-IsTimed other u.new_state u.now st.allowed (rw same timed),
        )
    | inr miss ↦ (info, st.others name miss ∙ found, timed)
  ]
]

apply_all-IsTimed :
    (us : List Update) (t : StateTracker) (name : String) (info i : TaskStateInfo)
    → get name t.tasks ≡ some info
    → IsTimed info.state info.started_at info.running_duration
    → get name (apply_all t us).tasks ≡ some i
    → IsTimed i.state i.started_at i.running_duration
unfolding apply_all
apply_all-IsTimed [] t name info i found timed e =
    let same : i ≡ info = ground arith in rw same timed
apply_all-IsTimed (u ∷ us) t name info i found timed e =
    let (next, found', timed') = apply-IsTimed t u name info found timed in
    apply_all-IsTimed us (apply t u) name next i found' timed' e

IsTimed-running :
    (s : TaskState) (at ran : Option ℕ)
    → IsTimed s at ran
    → ((s ≡ running) × (ran ≡ some 0)) ⊎ ((s ≢ running) × (ran ≡ none))
IsTimed-running running at ran t = inl (refl, t)
IsTimed-running pending at ran t = inr (λ e. cc, t.1)
IsTimed-running starting at ran t = inr (λ e. cc, t.1)
IsTimed-running stopping at ran t = inr (λ e. cc, t)
IsTimed-running stopped at ran t = inr (λ e. cc, t)
IsTimed-running failed at ran t = inr (λ e. cc, t)

-- The recorded duration of a task that was registered as `Pending` is absent while it does not run
-- and zero while it does, after any updates and however long it has been running.
pub running_duration-zero :
    (t : StateTracker) (name : String) (now : ℕ) (us : List Update) (i : TaskStateInfo)
    → get_state (apply_all (register_task t name pending now) us) name ≡ some i
    → ((i.state ≡ running) × (i.running_duration ≡ some 0))
      ⊎ ((i.state ≢ running) × (i.running_duration ≡ none))
unfolding register_task get_state
running_duration-zero t name now us i e = IsTimed-running i.state i.started_at i.running_duration (
    apply_all-IsTimed us _ name (new_info name pending now) i
      (get-insert name name _ t.tasks ∙ rw (str_eq_self name)) (refl, refl) e)
