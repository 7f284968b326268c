-- ===== src/Discovery/Unbounded.antt =====
-- The reference for discover.rs: the same changes over a channel without a bound, where no send waits.
use flare_server_core.Prelude.{
  Option, none, some, String, List, [], ◌∷◌, ◌++◌, ok, err, StringMap, get, insert, remove, keys,
  contains_key, if◌then◌else◌,
}
use flare_server_core.Discovery.Instance.{ServiceInstance, instance_eq}
use flare_server_core.Discovery.{
  inserted, removed, Discover, empty, record_instance, forget_instance, create_channel_service,
  collect_from, Iterate, Answer,
}

module _ {C : Type 0} where
  unfoldable pub updater_insert : Discover C → String → C → Discover C
  updater_insert s key service = record s {
    channel_cache = insert key service s.channel_cache;
    sent = s.sent ++ inserted key service ∷ [];
  }

  unfoldable pub updater_remove : Discover C → String → Discover C
  updater_remove s key = record s {
    channel_cache = remove key s.channel_cache;
    sent = s.sent ++ removed key ∷ [];
  }

  unfoldable pub insert_created : String → Discover C → Option C → Discover C
  unfolding updater_insert
  insert_created id s none = s
  insert_created id s (some c) = updater_insert s id c

  unfoldable pub create_and_insert :
      (String → Option C) → Discover C → String → ServiceInstance → Discover C
  unfolding create_channel_service insert_created
  create_and_insert connect s id i =
      let (s1, service) = create_channel_service connect s i in insert_created id s1 service

  unfoldable pub refresh_entry :
      (String → Option C)
      → Discover C
      → String
      → ServiceInstance
      → Option ServiceInstance
      → Discover C
  unfolding create_and_insert record_instance updater_remove
  refresh_entry connect s id i none = record_instance (create_and_insert connect s id i) id i
  refresh_entry connect s id i (some old) =
      if instance_eq old i
      then s
      else record_instance (create_and_insert connect (updater_remove s id) id i) id i

  unfoldable pub refresh_one :
      (String → Option C) → Discover C → String → ServiceInstance → Discover C
  unfolding refresh_entry
  refresh_one connect s id i = refresh_entry connect s id i (get id s.instances)

  unfoldable pub refresh_each :
      (String → Option C) → Discover C → StringMap ServiceInstance → Discover C
  unfolding refresh_one
  refresh_each connect s [] = s
  refresh_each connect s ((id, i) ∷ m) = refresh_each connect (refresh_one connect s id i) m

  unfoldable pub remove_missing : StringMap ServiceInstance → Discover C → List String → Discover C
  unfolding forget_instance updater_remove
  remove_missing answer s [] = s
  remove_missing answer s (id ∷ ids) =
      if contains_key id answer
      then remove_missing answer s ids
      else remove_missing answer (forget_instance (updater_remove s id) id) ids

  unfoldable pub refresh : (String → Option C) → Iterate → Discover C → Answer → Discover C
  unfolding refresh_each remove_missing collect_from
  refresh connect iterate s (err e) = s
  refresh connect iterate s (ok found) =
      let answer = collect_from found [] in
      let s1 = refresh_each connect s (iterate answer) in
      remove_missing answer s1 (keys (iterate s1.instances))

  unfoldable pub first_one : ServiceInstance → Discover C → Option C → Discover C
  unfolding updater_insert record_instance
  first_one i s none = s
  first_one i s (some c) = record_instance (updater_insert s i.instance_id c) i.instance_id i

  unfoldable pub first_each : (String → Option C) → Discover C → List ServiceInstance → Discover C
  unfolding create_channel_service first_one
  first_each connect s [] = s
  first_each connect s (i ∷ rest) =
      let (s1, service) = create_channel_service connect s i in
      first_each connect (first_one i s1 service) rest

  unfoldable pub from_backend : (String → Option C) → Answer → Discover C
  unfolding first_each
  from_backend connect (err e) = empty
  from_backend connect (ok found) = first_each connect empty found

  unfoldable pub refresh_all : (String → Option C) → Iterate → Discover C → List Answer → Discover C
  unfolding refresh
  refresh_all connect iterate s [] = s
  refresh_all connect iterate s (a ∷ rest) =
      refresh_all connect iterate (refresh connect iterate s a) rest
