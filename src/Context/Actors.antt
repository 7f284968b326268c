-- ===== src/Context/Actors.antt =====
-- The actor of a context that crosses a boundary as a map.
use mathlib.Core.List.{append-nil, append_assoc}
use flare_server_core.Prelude.{
  ◌≡◌, refl, sym, ap, ◌∙◌, Bool, true, false, not, ◌&&◌, Option, none, some, String, List, [], ◌∷◌,
  ◌++◌, all, StringMap, get, get-insert, arith, str_eq, str_eq_iff, Bool-cases, inl, inr,
}
use flare_server_core.Prelude.Decimal.{to_string, digits, parse, parse_digits}
use flare_server_core.Prelude.Texts.{
  is_empty, strip_prefix, trim, join, lacks, split-join, is_empty-join,
}
use flare_server_core.Context.{
  Context, ActorContext, ActorType, unspecified, user, service, tenant_admin, system, guest,
  actor_type_from, actor_type_number, new_actor, with_type, with_role, with_attribute, user_id_key,
}
use flare_server_core.Context.Codec.{
  non_empty, or_else, put_actor_id, put_actor_type, put_roles, put_actor, is_unspecified,
  decode_type, add_roles, decode_roles, add_attribute, decode_attributes, decode_actor,
  decode_actor_from_map, put_option, ctx_to_map, map_to_ctx,
}
use flare_server_core.Context.Headers.{
  get-put_attributes, get-put_roles, get-put_actor_type, get-put_actor_id, get-put_user, puts,
  get-puts, values_of, values_of-IsUnique,
}
use flare_server_core.Context.Restored.{map_to_ctx-ReadFrom}

-- A role that comes back: not empty, without blanks around it and without a comma.
abbrev pub is_plain_role : String → Bool
is_plain_role r = not (is_empty r) && str_eq (trim r) r && lacks 44 r

abbrev with_roles : ActorContext → List String → ActorContext
with_roles a rs = record a { roles = rs }

add_roles_plain :
    (rs : List String) (a : ActorContext)
    → all is_plain_role rs ≡ true
    → add_roles rs a ≡ with_roles a (a.roles ++ rs)
unfolding add_roles with_role
add_roles_plain [] a h = ap (λ l. with_roles a l) (sym (append-nil a.roles))
add_roles_plain (r ∷ rs) a h =
    let same : trim r ≡ r = (str_eq_iff (trim r) r).0 (ground arith) in
    let full : is_empty r ≡ false = ground arith in
    rw (same, full)
      (add_roles_plain rs (with_role a r) (ground arith)
        ∙ ap (λ l. with_roles a l) (append_assoc a.roles (r ∷ []) rs))

decode_type_lem :
    (t : ActorType)
    → is_unspecified t ≡ false
    → decode_type (some (to_string (actor_type_number t))) ≡ t
unfolding decode_type to_string digits actor_type_number actor_type_from is_unspecified strip_prefix
    parse parse_digits
decode_type_lem unspecified h = cc
decode_type_lem user h = refl
decode_type_lem service h = refl
decode_type_lem tenant_admin h = refl
decode_type_lem system h = refl
decode_type_lem guest h = refl

-- Who an actor is, without the attributes.
abbrev pub who : ActorContext → String × (ActorType × List String)
who a = (a.actor_id, (a.actor_type, a.roles))

who-add_attribute :
    (o : Option String) (v : String) (a : ActorContext) → who (add_attribute o v a) ≡ who a
unfolding add_attribute with_attribute
who-add_attribute none v a = refl
who-add_attribute (some k) v a = elim (Bool-cases (is_empty v)) [
  | inl e ↦ rw e refl
  | inr e ↦ rw e refl
]

who-decode_attributes :
    (m : StringMap String) (a : ActorContext) → who (decode_attributes m a) ≡ who a
unfolding decode_attributes
who-decode_attributes [] a = refl
who-decode_attributes ((key, v) ∷ m) a =
    who-decode_attributes m (add_attribute (strip_prefix key "x-actor-attr-") v a)
    ∙ who-add_attribute (strip_prefix key "x-actor-attr-") v a

is_unspecified_lem : (t : ActorType) → is_unspecified t ≡ true → t ≡ unspecified
unfolding is_unspecified
is_unspecified_lem unspecified e = refl
is_unspecified_lem user e = cc
is_unspecified_lem service e = cc
is_unspecified_lem tenant_admin e = cc
is_unspecified_lem system e = cc
is_unspecified_lem guest e = cc

all-lacks : (rs : List String) → all is_plain_role rs ≡ true → all (lacks 44) rs ≡ true
all-lacks [] h = refl
all-lacks (r ∷ rs) h = ground (arith, all-lacks rs)

decode-put_roles :
    (rs : List String) (m : StringMap String) (b : ActorContext)
    → all is_plain_role rs ≡ true
    → get "x-actor-roles" m ≡ none
    → decode_roles (non_empty (get "x-actor-roles" (put_roles rs m))) b
      ≡ with_roles b (b.roles ++ rs)
unfolding put_roles decode_roles non_empty
decode-put_roles [] m b plain absent =
    ap (λ o. decode_roles (non_empty o) b) absent ∙ ap (with_roles b) (sym (append-nil b.roles))
decode-put_roles (r ∷ rs) m b plain absent =
    ap (λ o. decode_roles (non_empty o) b)
      (get-insert "x-actor-roles" "x-actor-roles" (join "," (r ∷ rs)) m)
    ∙ rw (is_empty-join "," r rs (ground arith)) (
        ap (λ l. add_roles l b) (split-join "," r rs (all-lacks (r ∷ rs) plain))
        ∙ add_roles_plain (r ∷ rs) b plain)

decode-put_actor_type :
    (t : ActorType) (m : StringMap String)
    → get "x-actor-type" m ≡ none
    → decode_type (get "x-actor-type" (put_actor_type t m)) ≡ t
unfolding put_actor_type decode_type is_unspecified
decode-put_actor_type t m absent = elim (Bool-cases (is_unspecified t)) [
  | inl e ↦ rw e (ap decode_type absent ∙ sym (is_unspecified_lem t e))
  | inr e ↦
      rw e (ap decode_type (get-insert "x-actor-type" "x-actor-type" _ m) ∙ decode_type_lem t e)
]

-- What the map says of an actor.
module _ (a : ActorContext) (m : StringMap String) (full : is_empty a.actor_id ≡ false) where
  actor_map : StringMap String
  actor_map = put_actor (some a) m

  actor_id_written : get "x-actor-id" actor_map ≡ some a.actor_id
  unfolding actor_map put_actor put_actor_id strip_prefix
  actor_id_written =
      get-put_attributes "x-actor-id" a.attributes _ refl
      ∙ get-put_roles "x-actor-id" a.roles _ refl
      ∙ get-put_actor_type "x-actor-id" a.actor_type _ refl
      ∙ rw full
          (get-put_user "x-actor-id" a _ refl ∙ get-insert "x-actor-id" "x-actor-id" a.actor_id m)

  actor_type_written :
      get "x-actor-type" m ≡ none → decode_type (get "x-actor-type" actor_map) ≡ a.actor_type
  unfolding actor_map put_actor strip_prefix
  actor_type_written absent =
      ap decode_type (
        get-put_attributes "x-actor-type" a.attributes _ refl
        ∙ get-put_roles "x-actor-type" a.roles _ refl)
      ∙ decode-put_actor_type a.actor_type _
          (get-put_actor_id "x-actor-type" a m refl refl ∙ absent)

  roles_written :
      (b : ActorContext)
      → all is_plain_role a.roles ≡ true
      → get "x-actor-roles" m ≡ none
      → decode_roles (non_empty (get "x-actor-roles" actor_map)) b
        ≡ with_roles b (b.roles ++ a.roles)
  unfolding actor_map put_actor strip_prefix
  roles_written b plain absent =
      ap (λ o. decode_roles (non_empty o) b)
        (get-put_attributes "x-actor-roles" a.attributes _ refl)
      ∙ decode-put_roles a.roles _ b plain (
          get-put_actor_type "x-actor-roles" a.actor_type _ refl
          ∙ get-put_actor_id "x-actor-roles" a m refl refl
          ∙ absent)

  who-decode_actor_from_map :
      all is_plain_role a.roles ≡ true
      → get "x-actor-type" m ≡ none
      → get "x-actor-roles" m ≡ none
      → (b : ActorContext) × (decode_actor_from_map actor_map ≡ some b) × (who b ≡ who a)
  unfolding decode_actor_from_map decode_actor non_empty or_else new_actor with_type
  who-decode_actor_from_map plain no_type no_roles =
      let t = decode_type (get "x-actor-type" actor_map) in
      let typed = with_type (new_actor a.actor_id) t in
      let b =
        decode_attributes actor_map
          (decode_roles (non_empty (get "x-actor-roles" actor_map)) typed) in
      (
        b,
        ap (λ o. decode_actor (non_empty (or_else o (get user_id_key actor_map))) actor_map)
              actor_id_written
            ∙ rw full refl,
        who-decode_attributes actor_map _
            ∙ ap who (roles_written typed plain no_roles)
            ∙ ap (λ x. (a.actor_id, (x, a.roles))) (actor_type_written no_type),
      )

module _ {Token : Type 0} where
  -- An actor with an identifier crosses a boundary as a map with its identifier, its type and its
  -- roles, where each role is not empty, has no blanks around it and no comma.
  pub who-map_to_ctx :
      (ct : Token → Token) (token : Token) (uuid : String) (c : Context Token) (a : ActorContext)
      → c.data_map.actor ≡ some a
      → is_empty a.actor_id ≡ false
      → all is_plain_role a.roles ≡ true
      → (b : ActorContext) × ((map_to_ctx ct token uuid (ctx_to_map c)).data_map.actor ≡ some b)
        × (who b ≡ who a)
  unfolding ctx_to_map puts put_option get actor_map
  who-map_to_ctx ct token uuid c a there full plain =
      let m = puts (values_of c) [] in
      let (b, decoded, same) =
        who-decode_actor_from_map a m full plain
          (get-puts "x-actor-type" (values_of c) [] (values_of-IsUnique c))
          (get-puts "x-actor-roles" (values_of c) [] (values_of-IsUnique c)) in
      (
        b,
        (map_to_ctx-ReadFrom ct token uuid (ctx_to_map c)).actor
            ∙ ap (λ o. decode_actor_from_map (put_actor o m)) there
            ∙ decoded,
        same,
      )
