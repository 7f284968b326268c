-- ===== src/Discovery/Refreshes.antt =====
-- The first answer of the backend and the turns of the refresh loop of discover.rs: what the table
-- holds and where the balancer routes.
use flare_server_core.Prelude.{
  ◌≡◌, ◌≢◌, refl, sym, subst, ap, ◌∙◌, Bool, true, false, Option, none, some, String, List, [], ◌∷◌,
  ok, contains, StringMap, get, insert, get-insert, get-remove, is_some, is_some-none, contains_key,
  is_some-get-keys, keys, IsUnique, insert-IsUnique, remove-IsUnique, if◌then◌else◌, arith, str_eq,
  str_eq_iff, str_eq_self, Bool-cases, inl, inr,
}
use flare_server_core.Discovery.Instance.{ServiceInstance}
use flare_server_core.Discovery.{Discover, Iterate, forget_instance, collect_from}
use flare_server_core.Discovery.Unbounded.{
  updater_remove, refresh_one, refresh_each, remove_missing, refresh,
}
use flare_server_core.Discovery.Channels.{route, channel_of, IsLinked, route-updater_remove}
use flare_server_core.Discovery.Entries.{Holds, refresh_one-Refreshed}

-- Each instance stands under its own identifier.
abbrev IsKeyed : StringMap ServiceInstance → Type 0
IsKeyed m = (id : String) (i : ServiceInstance) → get id m ≡ some i → i.instance_id ≡ id

-- A walk over a hash map visits each of its entries once.
pub record IsWalk (iterate : Iterate) : Type 0 where
  pub once : (m : StringMap ServiceInstance) → IsUnique m → IsUnique (iterate m)
  pub each :
      (m : StringMap ServiceInstance) → IsUnique m → (id : String) → get id (iterate m) ≡ get id m

collect_from-IsUnique :
    (found : List ServiceInstance) (m : StringMap ServiceInstance)
    → IsUnique m
    → IsUnique (collect_from found m)
unfolding collect_from
collect_from-IsUnique [] m u = u
collect_from-IsUnique (i ∷ rest) m u =
    collect_from-IsUnique rest (insert i.instance_id i m) (insert-IsUnique i.instance_id i m u)

insert-IsKeyed :
    (i : ServiceInstance) (m : StringMap ServiceInstance)
    → IsKeyed m
    → IsKeyed (insert i.instance_id i m)
insert-IsKeyed i m keyed id j there = elim (Bool-cases (str_eq i.instance_id id)) [
  | inl here ↦
      let same : some i ≡ some j = ground (arith, get-insert i.instance_id id i m, here, there) in
      ground (arith, same, (str_eq_iff i.instance_id id).0 here)
  | inr apart ↦ keyed id j (ground (arith, get-insert i.instance_id id i m, apart, there))
]

collect_from-IsKeyed :
    (found : List ServiceInstance) (m : StringMap ServiceInstance)
    → IsKeyed m
    → IsKeyed (collect_from found m)
unfolding collect_from
collect_from-IsKeyed [] m k = k
collect_from-IsKeyed (i ∷ rest) m k =
    collect_from-IsKeyed rest (insert i.instance_id i m) (insert-IsKeyed i m k)

get-tail :
    (k : String) (x : ServiceInstance) (m : StringMap ServiceInstance) (id : String)
    (i : ServiceInstance)
    → is_some (get k m) ≡ false
    → get id m ≡ some i
    → get id ((k, x) ∷ m) ≡ some i
unfolding get
get-tail k x m id i new there = elim (Bool-cases (str_eq k id)) [
  | inl here ↦
      absurd (
        ground
          (arith, there, subst (λ j. is_some (get j m) ≡ false) ((str_eq_iff k id).0 here) new))
  | inr apart ↦ rw apart there
]

keys_apart :
    (answer : StringMap ServiceInstance) (k id : String) (b c : Bool)
    → contains_key k answer ≡ b
    → contains_key id answer ≡ c
    → b ≢ c
    → str_eq k id ≡ false
keys_apart answer k id b c e f differ = elim (Bool-cases (str_eq k id)) [
  | inl same ↦
      absurd (differ (sym e ∙ ap (λ j. contains_key j answer) ((str_eq_iff k id).0 same) ∙ f))
  | inr apart ↦ apart
]

module _ {C : Type 0} where
  record RefreshedEach (connect : String → Option C) (s : Discover C)
      (answer : StringMap ServiceInstance) (s' : Discover C) : Type 0 where
    linked : IsLinked connect s'
    covers :
        (id : String) (i : ServiceInstance) → get id answer ≡ some i → Holds i (get id s'.instances)
    others : (id : String) → get id answer ≡ none → get id s'.instances ≡ get id s.instances

  refresh_each-RefreshedEach :
      (connect : String → Option C) (s : Discover C) (answer : StringMap ServiceInstance)
      → IsLinked connect s
      → IsUnique answer
      → IsKeyed answer
      → RefreshedEach connect s answer (refresh_each connect s answer)
  unfolding refresh_each get
  refresh_each-RefreshedEach connect s [] linked u keyed = record {
    linked = linked;
    covers = λ id i there. cc;
    others = λ id absent. refl;
  }
  refresh_each-RefreshedEach connect s ((k, x) ∷ m) linked (new, u) keyed =
      let one = refresh_one-Refreshed connect s k x linked (keyed k x (rw (str_eq_self k) refl)) in
      let rest =
        refresh_each-RefreshedEach connect (refresh_one connect s k x) m one.linked u
          (λ id i there. keyed id i (get-tail k x m id i new there)) in
      record {
        linked = rest.linked;
        covers = λ id i there. elim (Bool-cases (str_eq k id)) [
          | inl here ↦
              let same : k ≡ id = (str_eq_iff k id).0 here in
              let this : i ≡ x = ground (arith, there, here) in
              rw (← same, this)
                (subst (Holds x) (sym (rest.others k (is_some-none (get k m) new))) one.holds)
          | inr apart ↦ rest.covers id i (ground (arith, there, apart))
        ];
        others = λ id absent. elim (Bool-cases (str_eq k id)) [
          | inl here ↦ absurd (ground (arith, absent, here))
          | inr apart ↦ rest.others id (ground (arith, absent, apart)) ∙ one.others id apart
        ];
      }

  record Removed (connect : String → Option C) (answer : StringMap ServiceInstance) (s : Discover C)
      (ids : List String) (s' : Discover C) : Type 0 where
    linked : IsLinked connect s'
    kept : (id : String) → contains_key id answer ≡ true → get id s'.instances ≡ get id s.instances
    gone :
        (id : String)
        → contains_key id answer ≡ false
        → contains id ids ≡ true
        → get id s'.instances ≡ none
    absent : (id : String) → get id s.instances ≡ none → get id s'.instances ≡ none

  channel_of_removed :
      (connect : String → Option C) (b : Bool) (e : Option ServiceInstance)
      → channel_of connect (if b then none else e) ≡ (if b then none else channel_of connect e)
  unfolding channel_of
  channel_of_removed connect true e = refl
  channel_of_removed connect false e = refl

  forget_instance-IsLinked :
      (connect : String → Option C) (s : Discover C) (id : String)
      → IsLinked connect s
      → IsLinked connect (forget_instance (updater_remove s id) id)
  unfolding forget_instance updater_remove route
  forget_instance-IsLinked connect s id linked = record {
    routed = λ j.
        route-updater_remove s id j
        ∙ ap (λ o. if str_eq id j then none else o) (linked.routed j)
        ∙ sym (channel_of_removed connect (str_eq id j) (get j s.instances))
        ∙ ap (channel_of connect) (sym (get-remove id j s.instances));
    cached = λ j.
        get-remove id j s.channel_cache
        ∙ ap (λ o. if str_eq id j then none else o) (linked.cached j)
        ∙ sym (route-updater_remove s id j);
    unique = remove-IsUnique id s.instances linked.unique;
  }

  forget_instance-instances :
      (s : Discover C) (k id : String)
      → get id (forget_instance (updater_remove s k) k).instances
        ≡ (if str_eq k id then none else get id s.instances)
  unfolding forget_instance updater_remove
  forget_instance-instances s k id = get-remove k id s.instances

  remove_missing-Removed :
      (connect : String → Option C) (answer : StringMap ServiceInstance) (s : Discover C)
      (ids : List String)
      → IsLinked connect s
      → Removed connect answer s ids (remove_missing answer s ids)
  unfolding remove_missing
  remove_missing-Removed connect answer s [] linked = record {
    linked = linked;
    kept = λ id there. refl;
    gone = λ id missing here. cc;
    absent = λ id none_there. none_there;
  }
  remove_missing-Removed connect answer s (k ∷ ids) linked =
      elim (Bool-cases (contains_key k answer)) [
        | inl there ↦ rw there (
            let rest = remove_missing-Removed connect answer s ids linked in
            record {
              linked = rest.linked;
              kept = rest.kept;
              gone = λ id missing here.
                  rest.gone id missing (
                    ground
                      (arith, here, keys_apart answer k id true false there missing (λ e. cc)));
              absent = rest.absent;
            })
        | inr missing_key ↦ rw missing_key (
            let s1 = forget_instance (updater_remove s k) k in
            let rest =
              remove_missing-Removed connect answer s1 ids
                (forget_instance-IsLinked connect s k linked) in
            record {
              linked = rest.linked;
              kept = λ id there.
                  rest.kept id there
                  ∙ forget_instance-instances s k id
                  ∙ rw (keys_apart answer k id false true missing_key there (λ e. cc)) refl;
              gone = λ id missing here. elim (Bool-cases (str_eq k id)) [
                | inl same ↦ rest.absent id (forget_instance-instances s k id ∙ rw same refl)
                | inr apart ↦ rest.gone id missing (ground (arith, here, apart))
              ];
              absent = λ id none_there.
                  rest.absent id (forget_instance-instances s k id ∙ ground (arith, none_there));
            })
      ]

  -- What a turn with an answer leaves, the answer read as a map.
  pub record Refreshes (connect : String → Option C) (answer : StringMap ServiceInstance)
      (s' : Discover C) : Type 0 where
    pub linked : IsLinked connect s'
    pub covers :
        (id : String) (i : ServiceInstance) → get id answer ≡ some i → Holds i (get id s'.instances)
    pub only : (id : String) → get id answer ≡ none → get id s'.instances ≡ none

  -- A turn with an answer: for each identifier of the answer the table has the last instance of it,
  -- or one that `==` finds equal to it, it has no other entry, and the table, the cache and the
  -- balancer agree.
  pub refresh-Refreshes :
      (connect : String → Option C) (iterate : Iterate) (s : Discover C)
      (found : List ServiceInstance)
      → IsWalk iterate
      → IsLinked connect s
      → Refreshes connect (collect_from found []) (refresh connect iterate s (ok found))
  unfolding refresh get
  refresh-Refreshes connect iterate s found walk linked =
      let answer = collect_from found [] in
      let u : IsUnique answer = collect_from-IsUnique found [] tt in
      let keyed : IsKeyed answer = collect_from-IsKeyed found [] (λ id i there. cc) in
      let s1 = refresh_each connect s (iterate answer) in
      let each =
        refresh_each-RefreshedEach connect s (iterate answer) linked (walk.once answer u)
          (λ id i there. keyed id i (sym (walk.each answer u id) ∙ there)) in
      let ids = keys (iterate s1.instances) in
      let rest = remove_missing-Removed connect answer s1 ids each.linked in
      record {
        linked = rest.linked;
        covers = λ id i there.
            subst (Holds i) (sym (rest.kept id (ap is_some there)))
              (each.covers id i (walk.each answer u id ∙ there));
        only = λ id missing. elim (Bool-cases (contains id ids)) [
          | inl here ↦ rest.gone id (ap is_some missing) here
          | inr away ↦ rest.absent id (
              is_some-none (get id s1.instances) (
                sym (ap is_some (walk.each s1.instances each.linked.unique id))
                ∙ is_some-get-keys id (iterate s1.instances)
                ∙ away))
        ];
      }
