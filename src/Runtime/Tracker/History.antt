-- ===== src/Runtime/Tracker/History.antt =====
-- Sequences of updates of the tracker of state/tracker.rs, and the events that they send.
use flare_server_core.Prelude.{
  ℕ, ◌+◌, ◌≤◌, occurrences, map, ◌≡◌, refl, sym, ap, ◌∙◌, true, false, Option, none, some, String,
  List, [], ◌∷◌, ◌++◌, get, if◌then◌else◌, arith, str_eq, str_eq_iff, Bool-cases, Option-cases, inl,
  inr, ◌⊎◌,
}
use mathlib.Core.List.{append-nil, append_assoc}
use flare_server_core.Runtime.TaskState.{TaskState, can_transition_to}
use flare_server_core.Runtime.TaskState.Runs.{steps_left, transition_descends}
use flare_server_core.Runtime.Tracker.{
  StateEvent, StateTracker, TaskStateInfo, new_event, with_error, update_info, update_state,
  update_state_with_error, get_state,
}
use flare_server_core.Runtime.Tracker.Updates.{Applied, update_state-Applied, update_state_refused}

-- A call of `update_state`, or of `update_state_with_error` where `error` is given.
pub record Update : Type 0 where
  pub name : String
  pub new_state : TaskState
  pub error : Option String
  pub now : ℕ
  pub stamp : ℕ

apply_with : Option String → StateTracker → String → TaskState → (now stamp : ℕ) → StateTracker
apply_with none t name new now stamp = (update_state t name new now stamp).0
apply_with (some error) t name new now stamp =
    (update_state_with_error t name new error now stamp).0

unfoldable pub apply : StateTracker → Update → StateTracker
unfolding apply_with
apply t u = apply_with u.error t u.name u.new_state u.now u.stamp

unfoldable pub apply_all : StateTracker → List Update → StateTracker
unfolding apply
apply_all t [] = t
apply_all t (u ∷ us) = apply_all (apply t u) us

-- The events of `name` in the log lead from `s` to `s'`: each starts where the one before ended,
-- and is an allowed transition.
abbrev pub Chain : String → TaskState → List StateEvent → TaskState → Type 0
Chain name s [] s' = s ≡ s'
Chain name s (e ∷ es) s' =
    if str_eq e.task_name name
    then (e.old_state ≡ s) × (can_transition_to s e.new_state ≡ true) × Chain name e.new_state es s'
    else Chain name s es s'

-- One update sends at most one event, and changes only the task that it names.
pub record Step (t t' : StateTracker) (u : Update) (info : TaskStateInfo) : Type 0 where
  pub allowed : can_transition_to info.state u.new_state ≡ true
  pub found : get u.name t.tasks ≡ some info
  pub updated : get u.name t'.tasks ≡ some (update_info info u.new_state u.now)
  pub others : (j : String) → str_eq u.name j ≡ false → get j t'.tasks ≡ get j t.tasks
  pub event : StateEvent
  pub names :
      (event.task_name ≡ u.name) × (event.old_state ≡ info.state) × (event.new_state ≡ u.new_state)
  pub sent : t'.events ≡ t.events ++ event ∷ []

module _ (t : StateTracker) (u : Update) (info : TaskStateInfo) where
  Applied-Step :
      (t' : StateTracker) {r : Option StateEvent} (e : StateEvent)
      → can_transition_to info.state u.new_state ≡ true
      → get u.name t.tasks ≡ some info
      → Applied t t' u.name info u.new_state u.now r e
      → (e.task_name ≡ u.name) × (e.old_state ≡ info.state) × (e.new_state ≡ u.new_state)
      → Step t t' u info
  Applied-Step t' e allowed found a names = record {
    allowed = allowed;
    found = found;
    updated = a.updated;
    others = a.others;
    event = e;
    names = names;
    sent = a.sent;
  }

  apply_with-Step :
      (error : Option String)
      → get u.name t.tasks ≡ some info
      → can_transition_to info.state u.new_state ≡ true
      → Step t (apply_with error t u.name u.new_state u.now u.stamp) u info
  unfolding apply_with new_event with_error get_state
  apply_with-Step none found allowed =
      Applied-Step _ _ allowed found
        (update_state-Applied t u.name "" u.new_state u.now u.stamp info found allowed).0
        (refl, refl, refl)
  apply_with-Step (some error) found allowed =
      Applied-Step _ _ allowed found
        (update_state-Applied t u.name error u.new_state u.now u.stamp info found allowed).1
        (refl, refl, refl)

apply_with_refused :
    (t : StateTracker) (error : Option String) (name : String) (new : TaskState) (now stamp : ℕ)
    → ((info : TaskStateInfo)
        → get name t.tasks ≡ some info
        → can_transition_to info.state new ≡ false)
    → apply_with error t name new now stamp ≡ t
unfolding apply_with get_state
apply_with_refused t none name new now stamp h =
    ap (λ p. p.0) (update_state_refused t name "" new now stamp h).0
apply_with_refused t (some error) name new now stamp h =
    ap (λ p. p.0) (update_state_refused t name error new now stamp h).1

pub apply_cases :
    (t : StateTracker) (u : Update)
    → (apply t u ≡ t) ⊎ ((info : TaskStateInfo) × Step t (apply t u) u info)
unfolding apply
apply_cases t u = elim (Option-cases (get u.name t.tasks)) [
  | inl missing ↦ inl (apply_with_refused t u.error u.name u.new_state u.now u.stamp (λ i f. cc))
  | inr (info, found) ↦ elim (Bool-cases (can_transition_to info.state u.new_state)) [
    | inl allowed ↦ inr (info, apply_with-Step t u info u.error found allowed)
    | inr refused ↦ inl (
        apply_with_refused t u.error u.name u.new_state u.now u.stamp
          (λ i f. let same : i ≡ info = ground (arith, f, found) in rw same refused))
  ]
]

-- What a sequence of updates does to one registered task.
pub record Outcome (name : String) (t t' : StateTracker) (info : TaskStateInfo) : Type 0 where
  pub final : TaskStateInfo
  pub log : List StateEvent
  pub found : get name t'.tasks ≡ some final
  pub sent : t'.events ≡ t.events ++ log
  pub chain : Chain name info.state log final.state

-- An update of the task itself that takes effect, before the rest of the sequence.
Outcome-hit :
    {t t' t'' : StateTracker} {u : Update} {info : TaskStateInfo}
    → Step t t' u info
    → Outcome u.name t' t'' (update_info info u.new_state u.now)
    → Outcome u.name t t'' info
unfolding update_info
Outcome-hit {u = u} {info = info} st o = record {
  final = o.final;
  log = st.event ∷ o.log;
  found = o.found;
  sent = o.sent ∙ ap (λ l. l ++ o.log) st.sent ∙ append_assoc _ (st.event ∷ []) o.log;
  chain =
      let hit : str_eq st.event.task_name u.name ≡ true = (str_eq_iff _ _).1 st.names.0 in
      rw hit (st.names.1, rw st.names.2 st.allowed, rw st.names.2 o.chain);
}

-- An update of another task that takes effect.
Outcome-miss :
    {t t' t'' : StateTracker} {u : Update} {other info : TaskStateInfo} (name : String)
    → str_eq u.name name ≡ false
    → Step t t' u other
    → Outcome name t' t'' info
    → Outcome name t t'' info
Outcome-miss {u = u} name apart st o = record {
  final = o.final;
  log = st.event ∷ o.log;
  found = o.found;
  sent = o.sent ∙ ap (λ l. l ++ o.log) st.sent ∙ append_assoc _ (st.event ∷ []) o.log;
  chain =
      let miss : str_eq st.event.task_name name ≡ false = rw st.names.0 apart in rw miss o.chain;
}

-- After any sequence of updates, allowed or not, a registered task is still registered, and the
-- events of its name that were sent lead, transition by transition, from its state before to its
-- state after.
pub apply_all-Outcome :
    (us : List Update) (t : StateTracker) (name : String) (info : TaskStateInfo)
    → get_state t name ≡ some info
    → Outcome name t (apply_all t us) info
unfolding apply_all get_state update_info
apply_all-Outcome [] t name info found = record {
  final = info;
  log = [];
  found = found;
  sent = sym (append-nil t.events);
  chain = refl;
}
apply_all-Outcome (u ∷ us) t name info found = elim (apply_cases t u) [
  | inl same ↦ rw same (apply_all-Outcome us t name info found)
  | inr (i, st) ↦ elim (Bool-cases (str_eq u.name name)) [
    | inl hit ↦
        let here : u.name ≡ name = (str_eq_iff u.name name).0 hit in
        let same : i ≡ info = ground (arith, st.found, found, here) in
        rw (← here, ← same)
          (Outcome-hit st
            (apply_all-Outcome us (apply t u) u.name (update_info i u.new_state u.now) st.updated))
    | inr miss ↦
        Outcome-miss name miss st
          (apply_all-Outcome us (apply t u) name info (st.others name miss ∙ found))
  ]
]

-- The events of one task in a chain use up the transitions that its state had left.
pub Chain-steps_left :
    (name : String) (s s' : TaskState) (log : List StateEvent)
    → Chain name s log s'
    → occurrences name (map (λ e. e.task_name) log) + steps_left s' ≤ steps_left s
Chain-steps_left name s s' [] c = ground (arith, c)
Chain-steps_left name s s' (e ∷ log) c = elim (Bool-cases (str_eq e.task_name name)) [
  | inl hit ↦
      let (old, allowed, rest) = rw hit at c in
      rw hit (
        omega (
          arith,
          transition_descends s e.new_state allowed,
          Chain-steps_left name e.new_state s' log rest,
        ))
  | inr miss ↦ rw miss (Chain-steps_left name s s' log (rw miss at c))
]

steps_left-le : (s : TaskState) → steps_left s ≤ 4
steps_left-le s = ground arith

-- However many updates are tried, at most four of them send an event of one registered task.
pub apply_all-events :
    (us : List Update) (t : StateTracker) (name : String) (info : TaskStateInfo)
    → get_state t name ≡ some info
    → (log : List StateEvent) × ((apply_all t us).events ≡ t.events ++ log)
      × (occurrences name (map (λ e. e.task_name) log) ≤ 4)
apply_all-events us t name info found =
    let o = apply_all-Outcome us t name info found in
    (
      o.log,
      o.sent,
      omega (
        arith,
        Chain-steps_left name info.state o.final.state o.log o.chain,
        steps_left-le info.state,
      ),
    )
