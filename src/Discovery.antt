-- ===== src/Discovery.antt =====
-- flare-core-transport/src/discovery/discover.rs: the table of instances, the cache of channels, and
-- the changes that the updater sends to the balancer, oldest first. `connect` stands for tonic's
-- `Endpoint::from_shared` and `connect_lazy`: the channel of a URI, or none where it is refused.
-- The channel to the balancer is bounded: a function gives none where one of its sends waits for ever.
-- The answer of the backend is an argument, and `iterate` is the order in which a hash map is walked.
pub mod Instance
pub mod Unbounded
pub mod Waits
pub mod Channels
pub mod Entries
pub mod Refreshes
pub mod Routing
pub mod Tags
mod Samples
use flare_server_core.Prelude.{
  ℕ, ◌+◌, ltb, length, Bool, true, false, Option, none, some, String, List, [], ◌∷◌, ◌++◌, Result,
  ok, err, StringMap, get, insert, remove, keys, values, contains_key, if◌then◌else◌,
}
use flare_server_core.Discovery.Instance.{ServiceInstance, to_grpc_uri, instance_eq}

-- tower::discover::Change, with the channel that a ChannelService holds.
pub data Change (C : Type 0) : Type 0 where
  inserted : String → C → Change C
  removed : String → Change C

pub record Discover (C : Type 0) : Type 0 where
  pub instances : StringMap ServiceInstance
  pub channel_cache : StringMap C
  pub sent : List (Change C)

-- The sending half of the bounded channel. When the change at a place of the log is sent, so many
-- changes have been received by the time that the send goes on, or until the end where it never does.
-- The receiver is not dropped.
pub record Sender : Type 0 where
  pub buffer : ℕ
  pub received : ℕ → ℕ

-- A call that may wait for ever, and what follows it.
infixl 5 ◌>>=◌
abbrev pub ◌>>=◌ : {A B : Type 0} → Option A → (A → Option B) → Option B
none >>= f = none
some a >>= f = f a

-- The error of the backend.
pub data BackendError : Type 0 where
  backend_failed : String → BackendError

module _ {C : Type 0} where
  abbrev pub empty : Discover C
  empty = record { instances = []; channel_cache = []; sent = [] }

  -- ServiceDiscover::new_internal
  unfoldable pub new_internal : (buffer : ℕ) → (received : ℕ → ℕ) → Discover C × Sender
  new_internal buffer received = (empty, record { buffer = buffer; received = received })

  -- `tx.send(..).await`: none where it waits for ever, for a receiver that does not go on.
  unfoldable pub send : Sender → Discover C → Change C → Option (Discover C)
  send tx s change =
      if ltb (length s.sent) (tx.received (length s.sent) + tx.buffer)
      then some (record s { sent = s.sent ++ change ∷ [] })
      else none

  -- ServiceDiscoverUpdater::insert
  unfoldable pub updater_insert : Sender → Discover C → String → C → Option (Discover C)
  unfolding send
  updater_insert tx s key service =
      send tx (record s { channel_cache = insert key service s.channel_cache })
        (inserted key service)

  -- ServiceDiscoverUpdater::remove
  unfoldable pub updater_remove : Sender → Discover C → String → Option (Discover C)
  unfolding send
  updater_remove tx s key =
      send tx (record s { channel_cache = remove key s.channel_cache }) (removed key)

  unfoldable pub record_instance : Discover C → String → ServiceInstance → Discover C
  record_instance s id i = record s { instances = insert id i s.instances }

  unfoldable pub forget_instance : Discover C → String → Discover C
  forget_instance s id = record s { instances = remove id s.instances }

  -- A new channel goes into the cache.
  unfoldable pub cache_new : Discover C → String → Option C → Discover C × Option C
  cache_new s id none = (s, none)
  cache_new s id (some c) = (record s { channel_cache = insert id c s.channel_cache }, some c)

  -- The entry of the cache, or a new channel.
  unfoldable pub cached_or_new :
      (String → Option C) → Discover C → ServiceInstance → Option C → Discover C × Option C
  unfolding cache_new
  cached_or_new connect s i (some c) = (s, some c)
  cached_or_new connect s i none = cache_new s i.instance_id (connect (to_grpc_uri i))

  -- ServiceDiscoverUpdater::create_channel_service
  unfoldable pub create_channel_service :
      (String → Option C) → Discover C → ServiceInstance → Discover C × Option C
  unfolding cached_or_new
  create_channel_service connect s i = cached_or_new connect s i (get i.instance_id s.channel_cache)

  unfoldable pub insert_created : Sender → String → Discover C → Option C → Option (Discover C)
  unfolding updater_insert
  insert_created tx id s none = some s
  insert_created tx id s (some c) = updater_insert tx s id c

  -- A channel is made, and sent where that succeeds.
  unfoldable pub create_and_insert :
      Sender → (String → Option C) → Discover C → String → ServiceInstance → Option (Discover C)
  unfolding create_channel_service insert_created
  create_and_insert tx connect s id i =
      let (s1, service) = create_channel_service connect s i in insert_created tx id s1 service

  -- One instance of an answer, against the entry of the table.
  unfoldable pub refresh_entry :
      Sender
      → (String → Option C)
      → Discover C
      → String
      → ServiceInstance
      → Option ServiceInstance
      → Option (Discover C)
  unfolding create_and_insert record_instance updater_remove
  refresh_entry tx connect s id i none = do
    s1 ← create_and_insert tx connect s id i
    some (record_instance s1 id i)
  refresh_entry tx connect s id i (some old) = if instance_eq old i then some s else do
    s1 ← updater_remove tx s id
    s2 ← create_and_insert tx connect s1 id i
    some (record_instance s2 id i)

  unfoldable pub refresh_one :
      Sender → (String → Option C) → Discover C → String → ServiceInstance → Option (Discover C)
  unfolding refresh_entry
  refresh_one tx connect s id i = refresh_entry tx connect s id i (get id s.instances)

  unfoldable pub refresh_each :
      Sender → (String → Option C) → Discover C → StringMap ServiceInstance → Option (Discover C)
  unfolding refresh_one
  refresh_each tx connect s [] = some s
  refresh_each tx connect s ((id, i) ∷ m) =
      refresh_one tx connect s id i >>= λ s1. refresh_each tx connect s1 m

  unfoldable pub remove_missing :
      Sender → StringMap ServiceInstance → Discover C → List String → Option (Discover C)
  unfolding forget_instance updater_remove
  remove_missing tx answer s [] = some s
  remove_missing tx answer s (id ∷ ids) =
      if contains_key id answer
      then remove_missing tx answer s ids
      else updater_remove tx s id >>= λ s1. remove_missing tx answer (forget_instance s1 id) ids

-- The answer as a map from the identifiers.
unfoldable pub collect_from :
    List ServiceInstance → StringMap ServiceInstance → StringMap ServiceInstance
collect_from [] m = m
collect_from (i ∷ rest) m = collect_from rest (insert i.instance_id i m)

abbrev pub Iterate : Type 0
Iterate = StringMap ServiceInstance → StringMap ServiceInstance

abbrev pub Answer : Type 0
Answer = Result (List ServiceInstance) BackendError

module _ {C : Type 0} where
  -- One turn of the refresh loop, with the answer of the backend.
  unfoldable pub refresh :
      Sender → (String → Option C) → Iterate → Discover C → Answer → Option (Discover C)
  unfolding refresh_each remove_missing collect_from
  refresh tx connect iterate s (err e) = some s
  refresh tx connect iterate s (ok found) =
      let answer = collect_from found [] in
      do
        s1 ← refresh_each tx connect s (iterate answer)
        remove_missing tx answer s1 (keys (iterate s1.instances))

  -- One instance of the first answer.
  unfoldable pub first_one : Sender → ServiceInstance → Discover C → Option C → Option (Discover C)
  unfolding updater_insert record_instance
  first_one tx i s none = some s
  first_one tx i s (some c) = do
    s1 ← updater_insert tx s i.instance_id c
    some (record_instance s1 i.instance_id i)

  unfoldable pub first_each :
      Sender → (String → Option C) → Discover C → List ServiceInstance → Option (Discover C)
  unfolding create_channel_service first_one
  first_each tx connect s [] = some s
  first_each tx connect s (i ∷ rest) =
      let (s1, service) = create_channel_service connect s i in
      first_one tx i s1 service >>= λ s2. first_each tx connect s2 rest

  -- ServiceDiscover::from_backend, up to the start of the refresh loop. Nobody receives before it
  -- returns: the receiver is in the ServiceDiscover that it returns.
  unfoldable pub from_backend : (String → Option C) → Answer → Option (Discover C)
  unfolding new_internal first_each
  from_backend connect (err e) = some (new_internal 16 (λ k. 0)).0
  from_backend connect (ok found) =
      let (s, tx) = new_internal 16 (λ k. 0) in first_each tx connect s found

  -- The turns of the refresh loop.
  unfoldable pub refresh_all :
      Sender → (String → Option C) → Iterate → Discover C → List Answer → Option (Discover C)
  unfolding refresh
  refresh_all tx connect iterate s [] = some s
  refresh_all tx connect iterate s (a ∷ rest) =
      refresh tx connect iterate s a >>= λ s1. refresh_all tx connect iterate s1 rest

  -- ServiceDiscover::get_instances
  unfoldable pub get_instances : Discover C → List ServiceInstance
  get_instances s = values s.instances
