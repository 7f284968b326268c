-- ===== src/Context/Headers.antt =====
-- What ctx_to_map of utils/context.rs writes under each key.
use flare_server_core.Prelude.{
  ◌≡◌, refl, sym, ap, ◌∙◌, false, not, ◌&&◌, Option, none, some, String, List, [], ◌∷◌, StringMap,
  IsUnique, get, insert, get-insert, contains_key, format, arith, str_eq, str_eq_iff, str_eq_self,
  is_some-none, Bool-cases, inl, inr,
}
use flare_server_core.Prelude.Texts.{is_empty, strip_prefix, strip_prefix-append}
use flare_server_core.Context.{
  Context, ActorContext, ActorType, trace_id_key, user_id_key, tenant_id_key, device_id_key,
  platform_key, session_id_key, request_id_key,
}
use flare_server_core.Context.Codec.{
  non_empty, or_else, put, put_option, put_user, put_actor_id, put_actor_type, put_roles,
  attribute_key, put_attributes, put_actor, is_user, is_unspecified, ctx_to_map,
}

get-put_self :
    (k s : String) (m : StringMap String)
    → get k (put k s m) ≡ or_else (non_empty (some s)) (get k m)
unfolding put non_empty or_else
get-put_self k s m = elim (Bool-cases (is_empty s)) [
  | inl e ↦ rw e refl
  | inr e ↦ rw e (get-insert k k s m ∙ rw (str_eq_self k) refl)
]

get-put_ne :
    (k j s : String) (m : StringMap String) → str_eq k j ≡ false → get j (put k s m) ≡ get j m
unfolding put
get-put_ne k j s m apart = elim (Bool-cases (is_empty s)) [
  | inl e ↦ rw e refl
  | inr e ↦ rw e (get-insert k j s m ∙ rw apart refl)
]

get-put_option_self :
    (k : String) (o : Option String) (m : StringMap String)
    → get k (put_option k o m) ≡ or_else (non_empty o) (get k m)
unfolding put_option non_empty or_else
get-put_option_self k none m = refl
get-put_option_self k (some s) m = get-put_self k s m

get-put_option_ne :
    (k j : String) (o : Option String) (m : StringMap String)
    → str_eq k j ≡ false
    → get j (put_option k o m) ≡ get j m
unfolding put_option
get-put_option_ne k j none m apart = refl
get-put_option_ne k j (some s) m apart = get-put_ne k j s m apart

pub non_empty_twice : (o : Option String) → non_empty (or_else (non_empty o) none) ≡ non_empty o
unfolding non_empty or_else
non_empty_twice none = refl
non_empty_twice (some s) = elim (Bool-cases (is_empty s)) [
  | inl e ↦ rw e refl
  | inr e ↦ rw (e, e) refl
]

-- A key that is not an attribute's.
attribute_key_apart :
    (k j : String) → strip_prefix j "x-actor-attr-" ≡ none → str_eq (attribute_key k) j ≡ false
attribute_key_apart k j other = elim (Bool-cases (str_eq (attribute_key k) j)) [
  | inl same ↦
      let eq : attribute_key k ≡ j = (str_eq_iff (attribute_key k) j).0 same in
      let clash : some _ ≡ none =
        sym (strip_prefix-append "x-actor-attr-" (format (k ∷ [])))
        ∙ ap (λ t. strip_prefix t "x-actor-attr-") eq
        ∙ other in
      absurd (ground (arith, clash))
  | inr apart ↦ apart
]

pub get-put_attributes :
    (j : String) (attrs m : StringMap String)
    → strip_prefix j "x-actor-attr-" ≡ none
    → get j (put_attributes attrs m) ≡ get j m
unfolding put_attributes
get-put_attributes j [] m other = refl
get-put_attributes j ((k, v) ∷ rest) m other =
    get-put_attributes j rest (insert (attribute_key k) v m) other
    ∙ get-insert (attribute_key k) j v m
    ∙ rw (attribute_key_apart k j other) refl

pub get-put_roles :
    (j : String) (roles : List String) (m : StringMap String)
    → str_eq "x-actor-roles" j ≡ false
    → get j (put_roles roles m) ≡ get j m
unfolding put_roles
get-put_roles j [] m apart = refl
get-put_roles j (r ∷ rs) m apart = get-insert "x-actor-roles" j _ m ∙ rw apart refl

pub get-put_actor_type :
    (j : String) (t : ActorType) (m : StringMap String)
    → str_eq "x-actor-type" j ≡ false
    → get j (put_actor_type t m) ≡ get j m
unfolding put_actor_type
get-put_actor_type j t m apart = elim (Bool-cases (is_unspecified t)) [
  | inl e ↦ rw e refl
  | inr e ↦ rw e (get-insert "x-actor-type" j _ m ∙ rw apart refl)
]

pub get-put_user :
    (j : String) (a : ActorContext) (m : StringMap String)
    → str_eq user_id_key j ≡ false
    → get j (put_user a m) ≡ get j m
unfolding put_user
get-put_user j a m apart =
    elim (Bool-cases (is_user a.actor_type && not (contains_key user_id_key m))) [
      | inl e ↦ rw e (get-insert user_id_key j a.actor_id m ∙ rw apart refl)
      | inr e ↦ rw e refl
    ]

pub get-put_actor_id :
    (j : String) (a : ActorContext) (m : StringMap String)
    → str_eq user_id_key j ≡ false
    → str_eq "x-actor-id" j ≡ false
    → get j (put_actor_id a m) ≡ get j m
unfolding put_actor_id
get-put_actor_id j a m apart away = elim (Bool-cases (is_empty a.actor_id)) [
  | inl e ↦ rw e refl
  | inr e ↦ rw e (get-put_user j a _ apart ∙ get-insert "x-actor-id" j a.actor_id m ∙ rw away refl)
]

-- A key that the actor does not write.
pub record IsPlain (j : String) : Type 0 where
  pub user : str_eq user_id_key j ≡ false
  pub actor : str_eq "x-actor-id" j ≡ false
  pub type : str_eq "x-actor-type" j ≡ false
  pub roles : str_eq "x-actor-roles" j ≡ false
  pub attribute : strip_prefix j "x-actor-attr-" ≡ none

get-put_actor :
    (j : String) (a : Option ActorContext) (m : StringMap String)
    → IsPlain j
    → get j (put_actor a m) ≡ get j m
unfolding put_actor
get-put_actor j none m plain = refl
get-put_actor j (some a) m plain =
    get-put_attributes j a.attributes _ plain.attribute
    ∙ get-put_roles j a.roles _ plain.roles
    ∙ get-put_actor_type j a.actor_type _ plain.type
    ∙ get-put_actor_id j a m plain.user plain.actor

-- The values of a context, under their keys, in the order in which they are written.
unfoldable pub puts : List (String × Option String) → StringMap String → StringMap String
puts [] m = m
puts ((k, o) ∷ es) m = puts es (put_option k o m)

abbrev pub entry_or : Option (Option String) → Option String → Option String
entry_or none before = before
entry_or (some o) before = or_else (non_empty o) before

pub get-puts :
    (j : String) (es : StringMap (Option String)) (m : StringMap String)
    → IsUnique es
    → get j (puts es m) ≡ entry_or (get j es) (get j m)
unfolding puts get
get-puts j [] m u = refl
get-puts j ((k, o) ∷ es) m (new, u) =
    get-puts j es (put_option k o m) u ∙ elim (Bool-cases (str_eq k j)) [
      | inl here ↦
          let same : k ≡ j = (str_eq_iff k j).0 here in
          rw (here, ← same)
            (ap (λ e. entry_or e (get k (put_option k o m))) (is_some-none (get k es) new)
              ∙ get-put_option_self k o m)
      | inr apart ↦ rw apart (ap (entry_or (get j es)) (get-put_option_ne k j o m apart))
    ]

module _ {Token : Type 0} where
  abbrev pub values_of : Context Token → StringMap (Option String)
  values_of c =
      (request_id_key, some c.request_id)
      ∷ (trace_id_key, some c.trace_id)
      ∷ (tenant_id_key, c.tenant_id)
      ∷ (user_id_key, c.user_id)
      ∷ (device_id_key, c.device_id)
      ∷ (platform_key, c.platform)
      ∷ (session_id_key, c.session_id)
      ∷ []

  pub values_of-IsUnique : (c : Context Token) → IsUnique (values_of c)
  unfolding get
  values_of-IsUnique c = (refl, (refl, (refl, (refl, (refl, (refl, (refl, tt)))))))

  -- Under a key that the actor does not write, a value stands if it is not empty.
  pub get-ctx_to_map :
      (c : Context Token) (j : String) (o : Option String)
      → IsPlain j
      → get j (values_of c) ≡ some o
      → non_empty (get j (ctx_to_map c)) ≡ non_empty o
  unfolding ctx_to_map puts get put_option
  get-ctx_to_map c j o plain there =
      ap non_empty (
        get-put_actor j c.data_map.actor _ plain
        ∙ get-puts j (values_of c) [] (values_of-IsUnique c)
        ∙ ap (λ e. entry_or e none) there)
      ∙ non_empty_twice o
