-- ===== src/Context.antt =====
-- flare-core-base/src/context: mod.rs (the keys and the actor) and core.rs (the context). A
-- cancellation token is tokio's: its type and `child_token` are parameters, and what is asked of a
-- token is a value. An instant is a number of milliseconds. Of the values stored by type the model
-- has the two that the crate stores, the actor and the audit.
pub mod Codec
pub mod Headers
pub mod Restored
pub mod Actors
pub mod Deadlines
mod Samples
use flare_server_core.Prelude.{
  ℕ, ◌+◌, ◌-◌, Bool, true, false, Option, none, some, String, List, [], ◌∷◌, ◌++◌, StringMap,
  insert, ltb, leb, ◌==◌, if◌then◌else◌, Result, ok, err,
}
use flare_server_core.Prelude.Int.{ℤ, pos, negsuc}
use flare_server_core.Prelude.Texts.{is_empty}

-- context::keys
abbrev pub trace_id_key : String
trace_id_key = "x-trace-id"

abbrev pub user_id_key : String
user_id_key = "x-user-id"

abbrev pub tenant_id_key : String
tenant_id_key = "x-tenant-id"

abbrev pub device_id_key : String
device_id_key = "x-device-id"

abbrev pub platform_key : String
platform_key = "x-platform"

abbrev pub session_id_key : String
session_id_key = "x-session-id"

abbrev pub request_id_key : String
request_id_key = "x-request-id"

pub data ActorType : Type 0 where
  unspecified user service tenant_admin system guest : ActorType

-- `ActorType::from` of an `i32`
unfoldable pub actor_type_from : ℤ → ActorType
actor_type_from (pos n) =
    if n == 1
    then user
    else if n == 2
    then service
    else if n == 3
    then tenant_admin
    else if n == 4
    then system
    else if n == 5
    then guest
    else unspecified
actor_type_from (negsuc n) = unspecified

-- `i32::from` of an `ActorType`
unfoldable pub actor_type_number : ActorType → ℕ
actor_type_number unspecified = 0
actor_type_number user = 1
actor_type_number service = 2
actor_type_number tenant_admin = 3
actor_type_number system = 4
actor_type_number guest = 5

pub record ActorContext : Type 0 where
  pub actor_id : String
  pub actor_type : ActorType
  pub roles : List String
  pub attributes : StringMap String

-- ActorContext::new
unfoldable pub new_actor : String → ActorContext
new_actor actor_id = record { actor_id = actor_id; actor_type = user; roles = []; attributes = [] }

-- ActorContext::with_type
unfoldable pub with_type : ActorContext → ActorType → ActorContext
with_type a actor_type = record a { actor_type = actor_type }

-- ActorContext::with_role
unfoldable pub with_role : ActorContext → String → ActorContext
with_role a role = record a { roles = a.roles ++ role ∷ [] }

-- ActorContext::with_attribute
unfoldable pub with_attribute : ActorContext → String → String → ActorContext
with_attribute a key value = record a { attributes = insert key value a.attributes }

pub record AuditContext : Type 0 where
  pub actor : ActorContext
  pub operated_at : ℤ
  pub reason : String
  pub metadata : StringMap String

-- AuditContext::new, at the time `now`
unfoldable pub new_audit : (now : ℤ) → ActorContext → AuditContext
new_audit now actor = record { actor = actor; operated_at = now; reason = ""; metadata = [] }

-- AuditContext::with_operated_at
unfoldable pub with_operated_at : AuditContext → ℤ → AuditContext
with_operated_at a ts = record a { operated_at = ts }

-- AuditContext::with_reason
unfoldable pub with_reason : AuditContext → String → AuditContext
with_reason a reason = record a { reason = reason }

-- AuditContext::with_metadata_entry
unfoldable pub with_metadata_entry : AuditContext → String → String → AuditContext
with_metadata_entry a key value = record a { metadata = insert key value a.metadata }

pub record TypeMap : Type 0 where
  pub actor : Option ActorContext
  pub audit : Option AuditContext

pub record Context (Token : Type 0) : Type 0 where
  pub cancel_token : Token
  pub deadline : Option ℕ
  pub request_id : String
  pub trace_id : String
  pub user_id : Option String
  pub tenant_id : Option String
  pub device_id : Option String
  pub platform : Option String
  pub session_id : Option String
  pub data_map : TypeMap

-- What with_deadline asks of the token of the new context.
pub data Timer (Token : Type 0) : Type 0 where
  cancel_now : Token → Timer Token
  cancel_at : Token → ℕ → Timer Token

pub data ContextError : Type 0 where
  cancelled deadline_exceeded : ContextError

-- The earlier of the inherited deadline and the new one.
unfoldable pub effective : Option ℕ → ℕ → ℕ
effective none deadline = deadline
effective (some d) deadline = if ltb d deadline then d else deadline

module _ {Token : Type 0} where
  -- Context::root, with a new token
  unfoldable pub root : Token → Context Token
  root token = record {
    cancel_token = token;
    deadline = none;
    request_id = "";
    trace_id = "";
    user_id = none;
    tenant_id = none;
    device_id = none;
    platform = none;
    session_id = none;
    data_map = record { actor = none; audit = none };
  }

  -- Context::with_request_id, with a new token
  unfoldable pub with_request_id : Token → String → Context Token
  unfolding root
  with_request_id token request_id = record (root token) { request_id = request_id }

  -- Context::child
  unfoldable pub child : (Token → Token) → Context Token → Context Token
  child child_token c = record c { cancel_token = child_token c.cancel_token }

  -- Context::with_deadline, at the time `now`
  unfoldable pub with_deadline :
      (Token → Token) → (now : ℕ) → Context Token → ℕ → Context Token × Timer Token
  unfolding child effective
  with_deadline child_token now c deadline =
      let c1 = child child_token c in
      let at = effective c1.deadline deadline in
      (
        record c1 { deadline = some at },
        if leb at now then cancel_now c1.cancel_token else cancel_at c1.cancel_token at,
      )

  -- Context::with_timeout and with_timeout_ms
  unfoldable pub with_timeout_ms :
      (Token → Token) → (now : ℕ) → Context Token → ℕ → Context Token × Timer Token
  unfolding with_deadline
  with_timeout_ms child_token now c ms = with_deadline child_token now c (now + ms)

  -- Context::with_task
  unfoldable pub with_task :
      (Token → Token) → (now : ℕ) → Context Token → Option ℕ → Context Token × Option (Timer Token)
  unfolding with_timeout_ms child
  with_task child_token now c none = (child child_token c, none)
  with_task child_token now c (some ms) =
      let (c1, timer) = with_timeout_ms child_token now c ms in (c1, some timer)

  module _ (child_token : Token → Token) where
    -- Context::with_trace_id
    unfoldable pub with_trace_id : Context Token → String → Context Token
    unfolding child
    with_trace_id c v = record (child child_token c) { trace_id = v }

    -- Context::with_user_id
    unfoldable pub with_user_id : Context Token → String → Context Token
    unfolding child
    with_user_id c v = record (child child_token c) { user_id = some v }

    -- Context::with_tenant_id
    unfoldable pub with_tenant_id : Context Token → String → Context Token
    unfolding child
    with_tenant_id c v = record (child child_token c) { tenant_id = some v }

    -- Context::with_device_id
    unfoldable pub with_device_id : Context Token → String → Context Token
    unfolding child
    with_device_id c v = record (child child_token c) { device_id = some v }

    -- Context::with_platform
    unfoldable pub with_platform : Context Token → String → Context Token
    unfolding child
    with_platform c v = record (child child_token c) { platform = some v }

    -- Context::with_session_id
    unfoldable pub with_session_id : Context Token → String → Context Token
    unfolding child
    with_session_id c v = record (child child_token c) { session_id = some v }

  -- Context::with_actor
  unfoldable pub with_actor : Context Token → ActorContext → Context Token
  with_actor c actor = record c { data_map = record c.data_map { actor = some actor } }

  -- Context::with_audit
  unfoldable pub with_audit : Context Token → AuditContext → Context Token
  with_audit c audit = record c { data_map = record c.data_map { audit = some audit } }

  -- Context::remaining_time, at the time `now`
  unfoldable pub remaining_time : (now : ℕ) → Context Token → Option ℕ
  remaining_time now c = elim c.deadline [
    | none ↦ none
    | some d ↦ if ltb now d then some (d - now) else none
  ]
