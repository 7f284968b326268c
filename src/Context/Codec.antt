-- ===== src/Context/Codec.antt =====
-- flare-core-base/src/utils/context.rs: a context as a map of texts, and back.
use flare_server_core.Prelude.{
  ℕ, zero, suc, ◌^◌, Bool, true, false, not, ◌&&◌, Option, none, some, String, List, [], ◌∷◌,
  StringMap, get, insert, contains_key, unwrap_or, format, if◌then◌else◌, Result, ok, err,
}
use flare_server_core.Prelude.Decimal.{to_string, parse, parse_some_digits}
use flare_server_core.Prelude.Int.{ℤ, pos, negsuc}
use flare_server_core.Prelude.Texts.{is_empty, strip_prefix, trim, split, join}
use flare_server_core.Context.{
  Context, ActorContext, ActorType, unspecified, user, actor_type_from, actor_type_number,
  new_actor, with_type, with_role, with_attribute, with_request_id, with_trace_id, with_user_id,
  with_tenant_id, with_device_id, with_platform, with_session_id, with_actor, trace_id_key,
  user_id_key, tenant_id_key, device_id_key, platform_key, session_id_key, request_id_key,
}

-- `filter(|s| !s.is_empty())`
unfoldable pub non_empty : Option String → Option String
non_empty none = none
non_empty (some s) = if is_empty s then none else some s

-- `or_else`
unfoldable pub or_else {ℓ} : {A : Type ℓ} → Option A → Option A → Option A
or_else (some a) b = some a
or_else none b = b

-- A text that is not empty goes into the map.
unfoldable pub put : String → String → StringMap String → StringMap String
put key s m = if is_empty s then m else insert key s m

unfoldable pub put_option : String → Option String → StringMap String → StringMap String
unfolding put
put_option key none m = m
put_option key (some s) m = put key s m

unfoldable pub is_user : ActorType → Bool
is_user user = true
is_user _ = false

unfoldable pub is_unspecified : ActorType → Bool
is_unspecified unspecified = true
is_unspecified _ = false

-- An actor who is a user stands in for a missing user.
unfoldable pub put_user : ActorContext → StringMap String → StringMap String
unfolding is_user
put_user a m =
    if is_user a.actor_type && not (contains_key user_id_key m)
    then insert user_id_key a.actor_id m
    else m

unfoldable pub put_actor_id : ActorContext → StringMap String → StringMap String
unfolding put_user
put_actor_id a m = if is_empty a.actor_id then m else put_user a (insert "x-actor-id" a.actor_id m)

unfoldable pub put_actor_type : ActorType → StringMap String → StringMap String
unfolding is_unspecified actor_type_number
put_actor_type t m =
    if is_unspecified t then m else insert "x-actor-type" (to_string (actor_type_number t)) m

unfoldable pub put_roles : List String → StringMap String → StringMap String
put_roles [] m = m
put_roles (r ∷ rs) m = insert "x-actor-roles" (join "," (r ∷ rs)) m

abbrev pub attribute_key : String → String
attribute_key k = format ("x-actor-attr-" ∷ k ∷ [])

unfoldable pub put_attributes : StringMap String → StringMap String → StringMap String
put_attributes [] m = m
put_attributes ((k, v) ∷ rest) m = put_attributes rest (insert (attribute_key k) v m)

unfoldable pub put_actor : Option ActorContext → StringMap String → StringMap String
unfolding put_actor_id put_actor_type put_roles put_attributes
put_actor none m = m
put_actor (some a) m =
    put_attributes a.attributes (put_roles a.roles (put_actor_type a.actor_type (put_actor_id a m)))

negate : ℕ → ℤ
negate zero = pos 0
negate (suc n) = negsuc n

-- `parse` to an `i32`
parse_i32 : String → Option ℤ
unfolding negate
parse_i32 s = elim (strip_prefix s "-") [
  | some digits ↦ elim (parse_some_digits (suc (2 ^ 31)) digits) [
    | none ↦ none
    | some n ↦ some (negate n)
  ]
  | none ↦ elim (parse (2 ^ 31) s) [ none ↦ none | some n ↦ some (pos n) ]
]

-- The type of the actor in a text that may be there.
unfoldable pub decode_type : Option String → ActorType
unfolding parse_i32 actor_type_from
decode_type none = unspecified
decode_type (some s) = elim (parse_i32 s) [ none ↦ unspecified | some n ↦ actor_type_from n ]

unfoldable pub add_roles : List String → ActorContext → ActorContext
unfolding with_role
add_roles [] a = a
add_roles (r ∷ rs) a = add_roles rs (if is_empty (trim r) then a else with_role a (trim r))

unfoldable pub decode_roles : Option String → ActorContext → ActorContext
unfolding add_roles
decode_roles none a = a
decode_roles (some s) a = add_roles (split 44 s) a

unfoldable pub add_attribute : Option String → String → ActorContext → ActorContext
unfolding with_attribute
add_attribute none v a = a
add_attribute (some k) v a = if is_empty v then a else with_attribute a k v

unfoldable pub decode_attributes : StringMap String → ActorContext → ActorContext
unfolding add_attribute
decode_attributes [] a = a
decode_attributes ((key, v) ∷ m) a =
    decode_attributes m (add_attribute (strip_prefix key "x-actor-attr-") v a)

unfoldable pub decode_actor : Option String → StringMap String → Option ActorContext
unfolding new_actor with_type decode_type decode_roles decode_attributes
decode_actor none m = none
decode_actor (some actor_id) m =
    let typed = with_type (new_actor actor_id) (decode_type (get "x-actor-type" m)) in
    some (decode_attributes m (decode_roles (non_empty (get "x-actor-roles" m)) typed))

-- decode_actor_from_map
unfoldable pub decode_actor_from_map : StringMap String → Option ActorContext
unfolding decode_actor non_empty or_else
decode_actor_from_map m =
    decode_actor (non_empty (or_else (get "x-actor-id" m) (get user_id_key m))) m

-- require_request_id_from_ctx and the other readers of a context
unfoldable pub require_text : String → Option String → Result String String
unfolding non_empty
require_text e o = elim (non_empty o) [ none ↦ err e | some s ↦ ok s ]

-- The identifier of the actor, where it is not empty.
unfoldable pub acting_id : Option ActorContext → Option String
unfolding non_empty
acting_id none = none
acting_id (some a) = non_empty (some a.actor_id)

module _ {Token : Type 0} where
  -- ctx_to_map
  unfoldable pub ctx_to_map : Context Token → StringMap String
  unfolding put put_option put_actor
  ctx_to_map c = put_actor c.data_map.actor (
      put_option session_id_key c.session_id (
        put_option platform_key c.platform (
          put_option device_id_key c.device_id (
            put_option user_id_key c.user_id (
              put_option tenant_id_key c.tenant_id
                (put trace_id_key c.trace_id (put request_id_key c.request_id [])))))))

  -- A value that is there is set.
  unfoldable pub set_option :
      (Context Token → String → Context Token) → Context Token → Option String → Context Token
  set_option f c none = c
  set_option f c (some s) = f c s

  unfoldable pub set_actor : Context Token → Option ActorContext → Context Token
  unfolding with_actor
  set_actor c none = c
  set_actor c (some a) = with_actor c a

  -- map_to_ctx, with a new token and a new identifier
  unfoldable pub map_to_ctx : (Token → Token) → Token → String → StringMap String → Context Token
  unfolding with_request_id with_trace_id with_user_id with_tenant_id with_device_id with_platform
      with_session_id set_option set_actor decode_actor_from_map non_empty
  map_to_ctx ct token uuid m =
      let c0 = with_request_id token (unwrap_or uuid (non_empty (get request_id_key m))) in
      let c1 = set_option (with_trace_id ct) c0 (non_empty (get trace_id_key m)) in
      let c2 = set_option (with_tenant_id ct) c1 (non_empty (get tenant_id_key m)) in
      let c3 = set_option (with_user_id ct) c2 (non_empty (get user_id_key m)) in
      let c4 = set_option (with_device_id ct) c3 (non_empty (get device_id_key m)) in
      let c5 = set_option (with_platform ct) c4 (non_empty (get platform_key m)) in
      let c6 = set_option (with_session_id ct) c5 (non_empty (get session_id_key m)) in
      set_actor c6 (decode_actor_from_map m)

  -- require_tenant_id_from_ctx
  unfoldable pub require_tenant_id_from_ctx : Context Token → Result String String
  unfolding require_text
  require_tenant_id_from_ctx c = require_text "Tenant ID is required in context" c.tenant_id

  -- require_user_id_from_ctx
  unfoldable pub require_user_id_from_ctx : Context Token → Result String String
  unfolding require_text acting_id or_else
  require_user_id_from_ctx c =
      require_text "User ID is required in context" (or_else (acting_id c.data_map.actor) c.user_id)

  -- require_request_id_from_ctx
  unfoldable pub require_request_id_from_ctx : Context Token → Result String String
  unfolding require_text
  require_request_id_from_ctx c =
      require_text "Request ID is required in context" (some c.request_id)

  -- extract_session_id_from_ctx
  unfoldable pub extract_session_id_from_ctx : Context Token → Option String
  extract_session_id_from_ctx c = c.session_id
