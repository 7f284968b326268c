-- ===== src/Discovery/Routing.antt =====
-- discover.rs against its specification: the balancer routes to the instances of the last answer.
use flare_server_core.Prelude.{
  ◌≡◌, ◌⊎◌, refl, sym, subst, ap, ◌∙◌, true, false, Option, none, some, String, List, [], ◌∷◌, ok,
  err, map, contains, StringMap, get, insert, get-insert, IsDistinct, if◌then◌else◌, arith, str_eq,
  str_eq_iff, str_eq_self, Bool-cases, Option-cases, inl, inr,
}
use flare_server_core.Discovery.Instance.{ServiceInstance, to_grpc_uri, instance_eq}
use flare_server_core.Discovery.{
  Discover, Iterate, Answer, empty, collect_from, create_channel_service,
}
use flare_server_core.Discovery.Unbounded.{
  refresh, first_one, first_each, from_backend, refresh_all,
}
use flare_server_core.Discovery
use flare_server_core.Discovery.{Sender}
use flare_server_core.Discovery.Waits.{GoesOn, refresh_all-Sends, from_backend-same}
use flare_server_core.Discovery.Channels.{route, channel_of, IsLinked, new_internal-IsLinked}
use flare_server_core.Discovery.Entries.{
  first_one_refused, first_one-Refreshed, channel_of_if, Refreshed,
}
use flare_server_core.Discovery.Refreshes.{IsWalk, Refreshes, refresh-Refreshes}

-- The specification: the state is the last answer that was not an error.
abbrev pub latest : List ServiceInstance → Answer → List ServiceInstance
latest found (err e) = found
latest found (ok new) = new

abbrev pub latest_all : List ServiceInstance → List Answer → List ServiceInstance
latest_all found [] = found
latest_all found (a ∷ rest) = latest_all (latest found a) rest

-- No two instances of the answer have one identifier.
abbrev pub HasDistinctIds : Answer → Type 0
HasDistinctIds (err e) = Unit
HasDistinctIds (ok found) = IsDistinct (map (λ i. i.instance_id) found)

to_grpc_uri-same :
    (a b : ServiceInstance) → (a ≡ b) ⊎ (instance_eq a b ≡ true) → to_grpc_uri a ≡ to_grpc_uri b
unfolding instance_eq to_grpc_uri
to_grpc_uri-same a b (inl same) = ap to_grpc_uri same
to_grpc_uri-same a b (inr equal) =
    let address : a.address ≡ b.address = ground (arith, str_eq_iff a.address b.address, equal) in
    rw address refl

module _ {C : Type 0} where
  -- Where the specification routes.
  unfoldable pub assigned : (String → Option C) → List ServiceInstance → String → Option C
  unfolding collect_from channel_of
  assigned connect found id = channel_of connect (get id (collect_from found []))

  record Agrees (connect : String → Option C) (s : Discover C) (found : List ServiceInstance)
      : Type 0 where
    linked : IsLinked connect s
    routes : (id : String) → route s id ≡ assigned connect found id

  Refreshes-channel_of :
      (connect : String → Option C) (answer : StringMap ServiceInstance) (s : Discover C)
      → Refreshes connect answer s
      → (id : String) → channel_of connect (get id s.instances) ≡ channel_of connect (get id answer)
  unfolding channel_of
  Refreshes-channel_of connect answer s r id = elim (Option-cases (get id answer)) [
    | inl missing ↦ ap (channel_of connect) (r.only id missing ∙ sym missing)
    | inr (i, there) ↦
        let h = r.covers id i there in
        ap (channel_of connect) h.found
        ∙ ap connect (to_grpc_uri-same h.entry_of i h.same)
        ∙ ap (channel_of connect) (sym there)
  ]

  refresh-Agrees :
      (connect : String → Option C) (iterate : Iterate) (s : Discover C)
      (found : List ServiceInstance) (a : Answer)
      → IsWalk iterate
      → Agrees connect s found
      → Agrees connect (refresh connect iterate s a) (latest found a)
  unfolding refresh assigned
  refresh-Agrees connect iterate s found (err e) walk agrees = agrees
  refresh-Agrees connect iterate s found (ok new) walk agrees =
      let r = refresh-Refreshes connect iterate s new walk agrees.linked in
      record {
        linked = r.linked;
        routes = λ id. r.linked.routed id ∙ Refreshes-channel_of connect _ _ r id;
      }

  refresh_all-Agrees :
      (connect : String → Option C) (iterate : Iterate) (s : Discover C)
      (found : List ServiceInstance) (turns : List Answer)
      → IsWalk iterate
      → Agrees connect s found
      → Agrees connect (refresh_all connect iterate s turns) (latest_all found turns)
  unfolding refresh_all
  refresh_all-Agrees connect iterate s found [] walk agrees = agrees
  refresh_all-Agrees connect iterate s found (a ∷ rest) walk agrees =
      refresh_all-Agrees connect iterate (refresh connect iterate s a) (latest found a) rest walk
        (refresh-Agrees connect iterate s found a walk agrees)

  Refreshed-route :
      (connect : String → Option C) (s s' : Discover C) (id : String) (i : ServiceInstance)
      → IsLinked connect s
      → Refreshed connect s id i s'
      → (j : String) → route s' j ≡ (if str_eq id j then connect (to_grpc_uri i) else route s j)
  unfolding channel_of
  Refreshed-route connect s s' id i linked r j =
      r.linked.routed j ∙ elim (Bool-cases (str_eq id j)) [
        | inl here ↦ rw here (
            ap (λ k. channel_of connect (get k s'.instances)) (sym ((str_eq_iff id j).0 here))
            ∙ ap (channel_of connect) r.holds.found
            ∙ ap connect (to_grpc_uri-same r.holds.entry_of i r.holds.same))
        | inr apart ↦ rw apart (ap (channel_of connect) (r.others j apart) ∙ sym (linked.routed j))
      ]

  inserted_route :
      (connect : String → Option C) (m : StringMap ServiceInstance) (i : ServiceInstance)
      (j : String)
      → (if str_eq i.instance_id j then connect (to_grpc_uri i) else channel_of connect (get j m))
        ≡ channel_of connect (get j (insert i.instance_id i m))
  inserted_route connect m i j =
      sym (channel_of_if connect i (str_eq i.instance_id j) (get j m))
      ∙ ap (channel_of connect) (sym (get-insert i.instance_id j i m))

  -- What is left of the first answer when its map so far is `m`.
  record Follows (connect : String → Option C) (s : Discover C) (m : StringMap ServiceInstance)
      : Type 0 where
    linked : IsLinked connect s
    routes : (id : String) → route s id ≡ channel_of connect (get id m)

  first_one-Follows :
      (connect : String → Option C) (s : Discover C) (m : StringMap ServiceInstance)
      (i : ServiceInstance)
      → Follows connect s m
      → get i.instance_id m ≡ none
      → Follows connect
          (let r = create_channel_service connect s i in first_one i r.0 r.1)
          (insert i.instance_id i m)
  unfolding channel_of
  first_one-Follows connect s m i f new =
      let unknown = f.routes i.instance_id ∙ ap (channel_of connect) new in
      elim (Option-cases (connect (to_grpc_uri i))) [
        | inl refused ↦
            subst (λ t. Follows connect t (insert i.instance_id i m))
              (sym
                (first_one_refused connect s i (f.linked.cached i.instance_id ∙ unknown) refused))
              (record {
                linked = f.linked;
                routes = λ j.
                    elim (Bool-cases (str_eq i.instance_id j)) [
                      | inl here ↦ rw here (
                          ap (route s) (sym ((str_eq_iff i.instance_id j).0 here))
                          ∙ unknown
                          ∙ sym refused)
                      | inr apart ↦ rw apart (f.routes j)
                    ]
                    ∙ inserted_route connect m i j;
              })
        | inr (c, there) ↦
            let r = first_one-Refreshed connect s i c f.linked unknown there in
            record {
              linked = r.linked;
              routes = λ j.
                  Refreshed-route connect s _ i.instance_id i f.linked r j
                  ∙ ap (λ o. if str_eq i.instance_id j then connect (to_grpc_uri i) else o)
                      (f.routes j)
                  ∙ inserted_route connect m i j;
            }
      ]

  first_each-Follows :
      (connect : String → Option C) (found : List ServiceInstance) (s : Discover C)
      (m : StringMap ServiceInstance)
      → Follows connect s m
      → IsDistinct (map (λ i. i.instance_id) found)
      → ((id : String) → contains id (map (λ i. i.instance_id) found) ≡ true → get id m ≡ none)
      → Follows connect (first_each connect s found) (collect_from found m)
  unfolding first_each collect_from
  first_each-Follows connect [] s m f distinct new = f
  first_each-Follows connect (i ∷ rest) s m f (apart, distinct) new =
      let here : get i.instance_id m ≡ none =
        new i.instance_id (ground (arith, str_eq_self i.instance_id)) in
      first_each-Follows connect rest _ (insert i.instance_id i m)
        (first_one-Follows connect s m i f here) distinct
        (λ id there. elim (Bool-cases (str_eq i.instance_id id)) [
          | inl same ↦ absurd (
              ground (
                arith,
                there,
                subst (λ k. contains k (map (λ x. x.instance_id) rest) ≡ false)
                    ((str_eq_iff i.instance_id id).0 same) apart,
              ))
          | inr other ↦ get-insert i.instance_id id i m ∙ rw other (new id (ground (arith, there)))
        ])

  from_backend-Agrees :
      (connect : String → Option C) (first : Answer)
      → HasDistinctIds first
      → Agrees connect (from_backend connect first) (latest [] first)
  unfolding from_backend assigned get
  from_backend-Agrees connect (err e) distinct = record {
    linked = new_internal-IsLinked connect;
    routes = (new_internal-IsLinked connect).routed;
  }
  from_backend-Agrees connect (ok found) distinct =
      let start : Follows connect empty [] = record {
        linked = new_internal-IsLinked connect;
        routes = (new_internal-IsLinked connect).routed;
      } in
      let f = first_each-Follows connect found empty [] start distinct (λ id there. refl) in
      record { linked = f.linked; routes = f.routes }

  -- A refinement: where `from_backend` has returned and the receiver of the changes goes on, any turns
  -- of the refresh loop, failed ones among them, come to their end, and the balancer that has seen the
  -- changes sent routes an identifier to the channel of the instance that the last answer without an
  -- error has for it (the last one, if it has several), and to nothing where there is none or its
  -- address is refused. Of the first answer no two instances may have one identifier. A hash map may
  -- be walked in any order.
  pub route-refresh_all :
      (connect : String → Option C) (iterate : Iterate) (tx : Sender) (first : Answer)
      (turns : List Answer) (s : Discover C)
      → IsWalk iterate
      → HasDistinctIds first
      → GoesOn tx
      → Discovery.from_backend connect first ≡ some s
      → (s' : Discover C) × (Discovery.refresh_all tx connect iterate s turns ≡ some s')
        × ((id : String) → route s' id ≡ assigned connect (latest_all (latest [] first) turns) id)
  route-refresh_all connect iterate tx first turns s walk distinct on began =
      let start : Agrees connect s (latest [] first) =
        subst (λ x. Agrees connect x (latest [] first))
          (sym (from_backend-same connect first s began))
          (from_backend-Agrees connect first distinct) in
      (
        refresh_all connect iterate s turns,
        (refresh_all-Sends tx connect iterate s turns).0 on,
        (refresh_all-Agrees connect iterate s (latest [] first) turns walk start).routes,
      )
