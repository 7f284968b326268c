-- ===== src/Discovery/Entries.antt =====
-- One instance of an answer in discover.rs: the channel made for it and its entry in the table.
use flare_server_core.Prelude.{
  ◌≡◌, ◌⊎◌, refl, sym, subst, ap, ◌∙◌, Bool, true, false, Option, none, some, String, get, insert,
  get-insert, get-remove, IsUnique, insert-IsUnique, if◌then◌else◌, arith, str_eq, str_eq_iff,
  str_eq_self, Bool-cases, Option-cases, inl, inr,
}
use flare_server_core.Discovery.Instance.{ServiceInstance, to_grpc_uri, instance_eq}
use flare_server_core.Discovery.{
  Discover, create_channel_service, record_instance, cached_or_new, cache_new,
}
use flare_server_core.Discovery.Unbounded.{
  updater_insert, updater_remove, first_one, insert_created, create_and_insert, refresh_one,
  refresh_entry,
}
use flare_server_core.Discovery.Channels.{
  route, channel_of, IsLinked, route-updater_insert, route-updater_remove,
}

else_of {ℓ} :
    {A : Type ℓ} {x y : A} (a : A) (b : Bool)
    → (b ≡ false → x ≡ y)
    → (if b then a else x) ≡ (if b then a else y)
else_of a true e = refl
else_of a false e = e refl

-- An instance stands in a table as it is given, or as one that `==` finds equal to it.
pub record Holds (i : ServiceInstance) (entry : Option ServiceInstance) : Type 0 where
  pub entry_of : ServiceInstance
  pub found : entry ≡ some entry_of
  pub same : (entry_of ≡ i) ⊎ (instance_eq entry_of i ≡ true)

module _ {C : Type 0} where
  -- What one instance leaves: the balancer and the cache have its channel, and nothing else changes.
  record Created (connect : String → Option C) (s : Discover C) (id : String) (i : ServiceInstance)
      (s' : Discover C) : Type 0 where
    routes :
        (j : String) → route s' j ≡ (if str_eq id j then connect (to_grpc_uri i) else route s j)
    caches :
        (j : String)
        → get j s'.channel_cache
          ≡ (if str_eq id j then connect (to_grpc_uri i) else get j s.channel_cache)
    keeps : s'.instances ≡ s.instances

  made : String → Discover C × Option C → Discover C
  unfolding insert_created
  made id r = insert_created id r.0 r.1

  create_and_insert_refused :
      (connect : String → Option C) (s : Discover C) (id : String) (i : ServiceInstance)
      → get i.instance_id s.channel_cache ≡ none
      → connect (to_grpc_uri i) ≡ none
      → create_and_insert connect s id i ≡ s
  unfolding create_and_insert create_channel_service cached_or_new insert_created cache_new made
  create_and_insert_refused connect s id i empty refused =
      ap (λ o. made id (cached_or_new connect s i o)) empty
      ∙ ap (λ o. made id (cache_new s i.instance_id o)) refused

  create_and_insert_new :
      (connect : String → Option C) (s : Discover C) (id : String) (i : ServiceInstance) (c : C)
      → get i.instance_id s.channel_cache ≡ none
      → connect (to_grpc_uri i) ≡ some c
      → create_and_insert connect s id i
        ≡ updater_insert (record s { channel_cache = insert i.instance_id c s.channel_cache }) id c
  unfolding create_and_insert create_channel_service cached_or_new insert_created cache_new made
  create_and_insert_new connect s id i c empty there =
      ap (λ o. made id (cached_or_new connect s i o)) empty
      ∙ ap (λ o. made id (cache_new s i.instance_id o)) there

  create_and_insert-Created :
      (connect : String → Option C) (s : Discover C) (id : String) (i : ServiceInstance)
      → i.instance_id ≡ id
      → get id s.channel_cache ≡ none
      → route s id ≡ none
      → Created connect s id i (create_and_insert connect s id i)
  unfolding updater_insert route
  create_and_insert-Created connect s id i own empty unknown =
      let empty' : get i.instance_id s.channel_cache ≡ none = rw own empty in
      elim (Option-cases (connect (to_grpc_uri i))) [
        | inl refused ↦
            subst (Created connect s id i)
              (sym (create_and_insert_refused connect s id i empty' refused))
              (record {
                routes = λ j. ground (arith, str_eq_iff id j, unknown, refused, ap (route s));
                caches = λ j.
                    ground
                      (arith, str_eq_iff id j, empty, refused, ap (λ k. get k s.channel_cache));
                keeps = refl;
              })
        | inr (c, there) ↦
            subst (Created connect s id i)
              (sym (create_and_insert_new connect s id i c empty' there))
              (record {
                routes = λ j.
                    route-updater_insert s id j c
                    ∙ ap (λ o. if str_eq id j then o else route s j) (sym there);
                caches = λ j.
                    get-insert id j c (insert i.instance_id c s.channel_cache)
                    ∙ ground (
                      arith,
                      get-insert i.instance_id j c s.channel_cache,
                      own,
                      there,
                      str_eq_iff id j,
                    );
                keeps = refl;
              })
      ]

  -- What the refresh of one instance leaves.
  pub record Refreshed (connect : String → Option C) (s : Discover C) (id : String)
      (i : ServiceInstance) (s' : Discover C) : Type 0 where
    pub linked : IsLinked connect s'
    pub holds : Holds i (get id s'.instances)
    pub others : (j : String) → str_eq id j ≡ false → get j s'.instances ≡ get j s.instances

  -- All but one identifier are linked.
  record IsLinkedBut (connect : String → Option C) (s : Discover C) (id : String) : Type 0 where
    routed : (j : String) → str_eq id j ≡ false → route s j ≡ channel_of connect (get j s.instances)
    cached : (j : String) → get j s.channel_cache ≡ route s j
    unknown : route s id ≡ none
    unique : IsUnique s.instances

  pub channel_of_if :
      (connect : String → Option C) (i : ServiceInstance) (b : Bool) (e : Option ServiceInstance)
      → channel_of connect (if b then some i else e)
        ≡ (if b then connect (to_grpc_uri i) else channel_of connect e)
  unfolding channel_of
  channel_of_if connect i true e = refl
  channel_of_if connect i false e = refl

  record_instance-Refreshed :
      (connect : String → Option C) (s s1 : Discover C) (id : String) (i : ServiceInstance)
      → i.instance_id ≡ id
      → IsLinkedBut connect s1 id
      → s1.instances ≡ s.instances
      → Refreshed connect s id i (record_instance (create_and_insert connect s1 id i) id i)
  unfolding record_instance route
  record_instance-Refreshed connect s s1 id i own but same =
      let made =
        create_and_insert-Created connect s1 id i own (but.cached id ∙ but.unknown) but.unknown in
      let s2 = create_and_insert connect s1 id i in
      record {
        linked = record {
          routed = λ j.
              made.routes j
              ∙ else_of (connect (to_grpc_uri i)) (str_eq id j) (λ apart.
                but.routed j apart ∙ ap (λ m. channel_of connect (get j m)) (sym made.keeps))
              ∙ sym (channel_of_if connect i (str_eq id j) (get j s2.instances))
              ∙ ap (channel_of connect) (sym (get-insert id j i s2.instances));
          cached = λ j.
              made.caches j
              ∙ ap (λ o. if str_eq id j then connect (to_grpc_uri i) else o) (but.cached j)
              ∙ sym (made.routes j);
          unique = insert-IsUnique id i s2.instances (subst IsUnique (sym made.keeps) but.unique);
        };
        holds = record {
          entry_of = i;
          found = get-insert id id i s2.instances ∙ rw (str_eq_self id) refl;
          same = inl refl;
        };
        others =
            λ j apart. get-insert id j i s2.instances ∙ rw apart (ap (get j) (made.keeps ∙ same));
      }

  updater_remove-IsLinkedBut :
      (connect : String → Option C) (s : Discover C) (id : String)
      → IsLinked connect s
      → IsLinkedBut connect (updater_remove s id) id
  unfolding updater_remove route
  updater_remove-IsLinkedBut connect s id linked = record {
    routed = λ j apart. route-updater_remove s id j ∙ rw apart (linked.routed j);
    cached = λ j.
        get-remove id j s.channel_cache
        ∙ ap (λ o. if str_eq id j then none else o) (linked.cached j)
        ∙ sym (route-updater_remove s id j);
    unknown = route-updater_remove s id id ∙ rw (str_eq_self id) refl;
    unique = linked.unique;
  }

  refresh_entry-Refreshed :
      (connect : String → Option C) (s : Discover C) (id : String) (i : ServiceInstance)
      (entry : Option ServiceInstance)
      → IsLinked connect s
      → i.instance_id ≡ id
      → get id s.instances ≡ entry
      → Refreshed connect s id i (refresh_entry connect s id i entry)
  unfolding refresh_entry channel_of
  refresh_entry-Refreshed connect s id i none linked own there =
      record_instance-Refreshed connect s s id i own
        (record {
          routed = λ j apart. linked.routed j;
          cached = linked.cached;
          unknown = linked.routed id ∙ ap (channel_of connect) there;
          unique = linked.unique;
        })
        refl
  refresh_entry-Refreshed connect s id i (some old) linked own there =
      elim (Bool-cases (instance_eq old i)) [
        | inl equal ↦ rw equal (record {
          linked = linked;
          holds = record { entry_of = old; found = there; same = inr equal };
          others = λ j apart. refl;
        })
        | inr other ↦ rw other (
            record_instance-Refreshed connect s (updater_remove s id) id i own
              (updater_remove-IsLinkedBut connect s id linked) refl)
      ]

  pub refresh_one-Refreshed :
      (connect : String → Option C) (s : Discover C) (id : String) (i : ServiceInstance)
      → IsLinked connect s
      → i.instance_id ≡ id
      → Refreshed connect s id i (refresh_one connect s id i)
  unfolding refresh_one
  refresh_one-Refreshed connect s id i linked own =
      refresh_entry-Refreshed connect s id i (get id s.instances) linked own refl

  -- An instance of the first answer whose address is refused is left out.
  pub first_one_refused :
      (connect : String → Option C) (s : Discover C) (i : ServiceInstance)
      → get i.instance_id s.channel_cache ≡ none
      → connect (to_grpc_uri i) ≡ none
      → (let r = create_channel_service connect s i in first_one i r.0 r.1) ≡ s
  unfolding create_channel_service cached_or_new cache_new first_one
  first_one_refused connect s i empty refused =
      ap (λ o. let r = cached_or_new connect s i o in first_one i r.0 r.1) empty
      ∙ ap (λ o. let r = cache_new s i.instance_id o in first_one i r.0 r.1) refused

  -- Any other is recorded with its channel.
  pub first_one-Refreshed :
      (connect : String → Option C) (s : Discover C) (i : ServiceInstance) (c : C)
      → IsLinked connect s
      → route s i.instance_id ≡ none
      → connect (to_grpc_uri i) ≡ some c
      → Refreshed connect s i.instance_id i
          (let r = create_channel_service connect s i in first_one i r.0 r.1)
  unfolding create_channel_service cached_or_new cache_new first_one
  first_one-Refreshed connect s i c linked unknown there =
      let empty = linked.cached i.instance_id ∙ unknown in
      subst (Refreshed connect s i.instance_id i)
        (ap (λ t. record_instance t i.instance_id i)
            (create_and_insert_new connect s i.instance_id i c empty there)
          ∙ sym (
              ap (λ o. let r = cached_or_new connect s i o in first_one i r.0 r.1) empty
              ∙ ap (λ o. let r = cache_new s i.instance_id o in first_one i r.0 r.1) there))
        (record_instance-Refreshed connect s s i.instance_id i refl
          (record {
            routed = λ j apart. linked.routed j;
            cached = linked.cached;
            unknown = unknown;
            unique = linked.unique;
          })
          refl)
