-- ===== src/Context/Deadlines.antt =====
-- The deadline of a context that is derived from another by the operations of core.rs.
use flare_server_core.Prelude.{
  ℕ, ◌+◌, ◌≡◌, refl, sym, ap, ◌∙◌, Option, none, some, String, List, [], ◌∷◌, ltb, if◌then◌else◌,
  ◌++◌,
}
use flare_server_core.Context.{
  Context, ActorContext, AuditContext, child, effective, with_deadline, with_timeout_ms, with_task,
  with_trace_id, with_user_id, with_tenant_id, with_device_id, with_platform, with_session_id,
  with_actor, with_audit,
}

-- The operations that make a context from another, each with the time at which it is called.
pub data Derivation : Type 0 where
  as_child : Derivation
  until : (now deadline : ℕ) → Derivation
  within : (now ms : ℕ) → Derivation
  task : (now : ℕ) → Option ℕ → Derivation
  trace tenant user device platform session : String → Derivation
  actor : ActorContext → Derivation
  audit : AuditContext → Derivation

-- The deadline that an operation asks for.
abbrev pub asked : Derivation → List ℕ
asked (until now deadline) = deadline ∷ []
asked (within now ms) = (now + ms) ∷ []
asked (task now (some ms)) = (now + ms) ∷ []
asked _ = []

abbrev pub asked_all : List Derivation → List ℕ
asked_all [] = []
asked_all (d ∷ ds) = asked d ++ asked_all ds

-- The earliest of the deadlines.
abbrev pub earliest : Option ℕ → List ℕ → Option ℕ
earliest o [] = o
earliest none (d ∷ ds) = earliest (some d) ds
earliest (some e) (d ∷ ds) = earliest (some (if ltb e d then e else d)) ds

module _ {Token : Type 0} (child_token : Token → Token) where
  unfoldable pub derive : Derivation → Context Token → Context Token
  unfolding child with_deadline with_timeout_ms with_task with_trace_id with_tenant_id with_user_id
      with_device_id with_platform with_session_id with_actor with_audit
  derive as_child c = child child_token c
  derive (until now deadline) c = (with_deadline child_token now c deadline).0
  derive (within now ms) c = (with_timeout_ms child_token now c ms).0
  derive (task now ms) c = (with_task child_token now c ms).0
  derive (trace v) c = with_trace_id child_token c v
  derive (tenant v) c = with_tenant_id child_token c v
  derive (user v) c = with_user_id child_token c v
  derive (device v) c = with_device_id child_token c v
  derive (platform v) c = with_platform child_token c v
  derive (session v) c = with_session_id child_token c v
  derive (actor a) c = with_actor c a
  derive (audit a) c = with_audit c a

  unfoldable pub derive_all : List Derivation → Context Token → Context Token
  unfolding derive
  derive_all [] c = c
  derive_all (d ∷ ds) c = derive_all ds (derive d c)

  earliest_one : (o : Option ℕ) (d : ℕ) → some (effective o d) ≡ earliest o (d ∷ [])
  unfolding effective
  earliest_one none d = refl
  earliest_one (some e) d = refl

  derive-deadline :
      (d : Derivation) (c : Context Token) → (derive d c).deadline ≡ earliest c.deadline (asked d)
  unfolding derive child with_deadline with_timeout_ms with_task with_trace_id with_tenant_id
      with_user_id with_device_id with_platform with_session_id with_actor with_audit
  derive-deadline as_child c = refl
  derive-deadline (until now deadline) c = earliest_one c.deadline deadline
  derive-deadline (within now ms) c = earliest_one c.deadline (now + ms)
  derive-deadline (task now none) c = refl
  derive-deadline (task now (some ms)) c = earliest_one c.deadline (now + ms)
  derive-deadline (trace v) c = refl
  derive-deadline (tenant v) c = refl
  derive-deadline (user v) c = refl
  derive-deadline (device v) c = refl
  derive-deadline (platform v) c = refl
  derive-deadline (session v) c = refl
  derive-deadline (actor a) c = refl
  derive-deadline (audit a) c = refl

  earliest-append :
      (o : Option ℕ) (xs ys : List ℕ) → earliest o (xs ++ ys) ≡ earliest (earliest o xs) ys
  earliest-append o [] ys = refl
  earliest-append none (x ∷ xs) ys = earliest-append (some x) xs ys
  earliest-append (some e) (x ∷ xs) ys = earliest-append (some (if ltb e x then e else x)) xs ys

  -- However a context is derived, its deadline is the earliest of the first context's deadline and
  -- of all that were asked for on the way: a derived context never outlives the one it comes from.
  pub derive_all-deadline :
      (ds : List Derivation) (c : Context Token)
      → (derive_all ds c).deadline ≡ earliest c.deadline (asked_all ds)
  unfolding derive_all
  derive_all-deadline [] c = refl
  derive_all-deadline (d ∷ ds) c =
      derive_all-deadline ds (derive d c)
      ∙ ap (λ o. earliest o (asked_all ds)) (derive-deadline d c)
      ∙ sym (earliest-append c.deadline (asked d) (asked_all ds))
