-- ===== src/Context/Restored.antt =====
-- What is left of a context that crosses a boundary as a map: ctx_to_map, then map_to_ctx.
use flare_server_core.Prelude.{
  ◌≡◌, refl, sym, ap, ◌∙◌, Bool, true, false, Option, none, some, String, [], StringMap, get,
  insert, get-insert, unwrap_or, arith, str_eq_iff, Bool-cases, Option-cases, inl, inr,
  if◌then◌else◌,
}
use flare_server_core.Prelude.Texts.{is_empty, strip_prefix}
use flare_server_core.Context.{
  Context, ActorContext, with_trace_id, with_user_id, with_tenant_id, with_device_id, with_platform,
  with_session_id, with_actor, child, trace_id_key, user_id_key, tenant_id_key, device_id_key,
  platform_key, session_id_key, request_id_key,
}
use flare_server_core.Context.Codec.{
  non_empty, or_else, put_user, put_actor_id, put_actor, is_user, ctx_to_map, map_to_ctx,
  set_option, set_actor, decode_actor_from_map,
}
use flare_server_core.Context.Headers.{
  get-put_attributes, get-put_roles, get-put_actor_type, puts, get-puts, values_of,
  values_of-IsUnique, get-ctx_to_map,
}

-- The identifier of an actor who is a user.
unfoldable pub user_of : Option ActorContext → Option String
unfolding is_user non_empty
user_of none = none
user_of (some a) = if is_user a.actor_type then non_empty (some a.actor_id) else none

empty_text : (s : String) → unwrap_or "" (non_empty (some s)) ≡ s
unfolding non_empty
empty_text s = elim (Bool-cases (is_empty s)) [
  | inl e ↦ rw e (sym ((str_eq_iff s "").0 e))
  | inr e ↦ rw e refl
]

or_else-none {ℓ} : {A : Type ℓ} (o : Option A) → or_else o none ≡ o
unfolding or_else
or_else-none none = refl
or_else-none (some s) = refl

ite_none : (b : Bool) (o : Option String) → o ≡ none → (if b then o else none) ≡ none
ite_none true o e = e
ite_none false o e = refl

get_user-put_user :
    (a : ActorContext) (m : StringMap String)
    → get user_id_key (put_user a m)
      ≡ or_else (get user_id_key m) (if is_user a.actor_type then some a.actor_id else none)
unfolding put_user or_else
get_user-put_user a m = elim (Option-cases (get user_id_key m)) [
  | inl missing ↦ ground (arith, missing, get-insert user_id_key user_id_key a.actor_id m)
  | inr (u, there) ↦ ground (arith, there)
]

get_user-put_actor_id :
    (a : ActorContext) (m : StringMap String)
    → get user_id_key (put_actor_id a m) ≡ or_else (get user_id_key m) (user_of (some a))
unfolding put_actor_id user_of non_empty
get_user-put_actor_id a m = elim (Bool-cases (is_empty a.actor_id)) [
  | inl e ↦ rw e (
      sym (or_else-none (get user_id_key m))
      ∙ ap (or_else (get user_id_key m)) (sym (ite_none (is_user a.actor_type) none refl)))
  | inr e ↦ rw e (
      get_user-put_user a (insert "x-actor-id" a.actor_id m)
      ∙ ap (λ o. or_else o (if is_user a.actor_type then some a.actor_id else none))
          (get-insert "x-actor-id" user_id_key a.actor_id m))
]

get_user-put_actor :
    (a : Option ActorContext) (m : StringMap String)
    → get user_id_key (put_actor a m) ≡ or_else (get user_id_key m) (user_of a)
unfolding put_actor user_of or_else strip_prefix
get_user-put_actor none m = sym (or_else-none (get user_id_key m))
get_user-put_actor (some a) m =
    get-put_attributes user_id_key a.attributes _ refl
    ∙ get-put_roles user_id_key a.roles _ refl
    ∙ get-put_actor_type user_id_key a.actor_type _ refl
    ∙ get_user-put_actor_id a m

non_empty-or_else :
    (o r : Option String)
    → non_empty (or_else (non_empty o) r) ≡ or_else (non_empty o) (non_empty r)
unfolding non_empty or_else
non_empty-or_else none r = refl
non_empty-or_else (some s) r = elim (Bool-cases (is_empty s)) [
  | inl e ↦ rw e refl
  | inr e ↦ rw (e, e) refl
]

non_empty-user_of : (a : Option ActorContext) → non_empty (user_of a) ≡ user_of a
unfolding user_of non_empty
non_empty-user_of none = refl
non_empty-user_of (some a) = elim (Bool-cases (is_user a.actor_type)) [
  | inl e ↦
      rw e (elim (Bool-cases (is_empty a.actor_id)) [ inl f ↦ rw f refl | inr f ↦ rw (f, f) refl ])
  | inr e ↦ rw e refl
]

module _ {Token : Type 0} (ct : Token → Token) where
  stepped : Token → Option String → Token
  stepped t none = t
  stepped t (some s) = ct t

  set_trace :
      (c : Context Token) (o : Option String)
      → set_option (with_trace_id ct) c o
        ≡ record c { cancel_token = stepped c.cancel_token o; trace_id = unwrap_or c.trace_id o }
  unfolding set_option with_trace_id or_else stepped child
  set_trace c none = refl
  set_trace c (some s) = refl

  set_tenant :
      (c : Context Token) (o : Option String)
      → set_option (with_tenant_id ct) c o
        ≡ record c { cancel_token = stepped c.cancel_token o; tenant_id = or_else o c.tenant_id }
  unfolding set_option with_tenant_id or_else stepped child
  set_tenant c none = refl
  set_tenant c (some s) = refl

  set_user :
      (c : Context Token) (o : Option String)
      → set_option (with_user_id ct) c o
        ≡ record c { cancel_token = stepped c.cancel_token o; user_id = or_else o c.user_id }
  unfolding set_option with_user_id or_else stepped child
  set_user c none = refl
  set_user c (some s) = refl

  set_device :
      (c : Context Token) (o : Option String)
      → set_option (with_device_id ct) c o
        ≡ record c { cancel_token = stepped c.cancel_token o; device_id = or_else o c.device_id }
  unfolding set_option with_device_id or_else stepped child
  set_device c none = refl
  set_device c (some s) = refl

  set_platform :
      (c : Context Token) (o : Option String)
      → set_option (with_platform ct) c o
        ≡ record c { cancel_token = stepped c.cancel_token o; platform = or_else o c.platform }
  unfolding set_option with_platform or_else stepped child
  set_platform c none = refl
  set_platform c (some s) = refl

  set_session :
      (c : Context Token) (o : Option String)
      → set_option (with_session_id ct) c o
        ≡ record c { cancel_token = stepped c.cancel_token o; session_id = or_else o c.session_id }
  unfolding set_option with_session_id or_else stepped child
  set_session c none = refl
  set_session c (some s) = refl

  set_actor_lem :
      (c : Context Token) (a : Option ActorContext)
      → set_actor c a
        ≡ record c { data_map = record c.data_map { actor = or_else a c.data_map.actor } }
  unfolding set_actor with_actor or_else
  set_actor_lem c none = refl
  set_actor_lem c (some a) = refl

  -- What map_to_ctx reads, field by field.
  pub record ReadFrom (uuid : String) (m : StringMap String) (c : Context Token) : Type 0 where
    request : c.request_id ≡ unwrap_or uuid (non_empty (get request_id_key m))
    trace : c.trace_id ≡ unwrap_or "" (non_empty (get trace_id_key m))
    tenant : c.tenant_id ≡ non_empty (get tenant_id_key m)
    user : c.user_id ≡ non_empty (get user_id_key m)
    device : c.device_id ≡ non_empty (get device_id_key m)
    platform : c.platform ≡ non_empty (get platform_key m)
    session : c.session_id ≡ non_empty (get session_id_key m)
    pub actor : c.data_map.actor ≡ decode_actor_from_map m
    deadline : c.deadline ≡ none

  pub map_to_ctx-ReadFrom :
      (token : Token) (uuid : String) (m : StringMap String)
      → ReadFrom uuid m (map_to_ctx ct token uuid m)
  unfolding map_to_ctx
  map_to_ctx-ReadFrom token uuid m =
      simp
        (
          set_trace, set_tenant, set_user, set_device, set_platform, set_session, set_actor_lem,
          or_else-none,
        )
        (record {
          request = refl;
          trace = refl;
          tenant = refl;
          user = refl;
          device = refl;
          platform = refl;
          session = refl;
          actor = refl;
          deadline = refl;
        })

  -- A context after its crossing: what was empty is absent, and the deadline is gone.
  pub record Restored (uuid : String) (c c' : Context Token) : Type 0 where
    pub request : c'.request_id ≡ unwrap_or uuid (non_empty (some c.request_id))
    pub trace : c'.trace_id ≡ c.trace_id
    pub tenant : c'.tenant_id ≡ non_empty c.tenant_id
    pub user : c'.user_id ≡ or_else (non_empty c.user_id) (user_of c.data_map.actor)
    pub device : c'.device_id ≡ non_empty c.device_id
    pub platform : c'.platform ≡ non_empty c.platform
    pub session : c'.session_id ≡ non_empty c.session_id
    pub deadline : c'.deadline ≡ none

  user_written :
      (c : Context Token)
      → non_empty (get user_id_key (ctx_to_map c))
        ≡ or_else (non_empty c.user_id) (user_of c.data_map.actor)
  unfolding ctx_to_map puts get
  user_written c =
      ap non_empty (
        get_user-put_actor c.data_map.actor _
        ∙ ap (λ o. or_else o (user_of c.data_map.actor))
            (get-puts user_id_key (values_of c) [] (values_of-IsUnique c)
              ∙ or_else-none (non_empty c.user_id)))
      ∙ non_empty-or_else c.user_id (user_of c.data_map.actor)
      ∙ ap (or_else (non_empty c.user_id)) (non_empty-user_of c.data_map.actor)

  -- A context that crosses a boundary as a map keeps its seven identifiers: each value that is not
  -- empty comes back, an empty one as absent, an empty request identifier as the new one. Only a
  -- missing user is replaced, by the identifier of an actor who is a user. The deadline is lost.
  pub map_to_ctx-ctx_to_map :
      (token : Token) (uuid : String) (c : Context Token)
      → Restored uuid c (map_to_ctx ct token uuid (ctx_to_map c))
  unfolding get strip_prefix
  map_to_ctx-ctx_to_map token uuid c =
      let r = map_to_ctx-ReadFrom token uuid (ctx_to_map c) in
      record {
        request =
            r.request
            ∙ ap (unwrap_or uuid) (
                get-ctx_to_map c request_id_key _
                  (record {
                    user = refl;
                    actor = refl;
                    type = refl;
                    roles = refl;
                    attribute = refl;
                  })
                  refl);
        trace =
            r.trace
            ∙ ap (unwrap_or "") (
                get-ctx_to_map c trace_id_key _
                  (record {
                    user = refl;
                    actor = refl;
                    type = refl;
                    roles = refl;
                    attribute = refl;
                  })
                  refl)
            ∙ empty_text c.trace_id;
        tenant =
            r.tenant
            ∙ get-ctx_to_map c tenant_id_key _
                (record { user = refl; actor = refl; type = refl; roles = refl; attribute = refl })
                refl;
        user = r.user ∙ user_written c;
        device =
            r.device
            ∙ get-ctx_to_map c device_id_key _
                (record { user = refl; actor = refl; type = refl; roles = refl; attribute = refl })
                refl;
        platform =
            r.platform
            ∙ get-ctx_to_map c platform_key _
                (record { user = refl; actor = refl; type = refl; roles = refl; attribute = refl })
                refl;
        session =
            r.session
            ∙ get-ctx_to_map c session_id_key _
                (record { user = refl; actor = refl; type = refl; roles = refl; attribute = refl })
                refl;
        deadline = r.deadline;
      }
