-- ===== src/Discovery/Channels.antt =====
-- What the balancer of discover.rs knows: the changes sent, replayed, beside the table and the cache.
use flare_server_core.Prelude.{
  ◌≡◌, refl, ap, ◌∙◌, Option, none, some, String, List, [], ◌∷◌, ◌++◌, StringMap, get, insert,
  remove, get-insert, get-remove, IsUnique, if◌then◌else◌, str_eq,
}
use flare_server_core.Discovery.Instance.{ServiceInstance, to_grpc_uri}
use flare_server_core.Discovery.{Change, inserted, removed, Discover, empty}
use flare_server_core.Discovery.Unbounded.{updater_insert, updater_remove}

module _ {C : Type 0} where
  -- The endpoints of a balancer that has seen the changes.
  unfoldable pub replay : List (Change C) → StringMap C → StringMap C
  replay [] m = m
  replay (inserted k c ∷ cs) m = replay cs (insert k c m)
  replay (removed k ∷ cs) m = replay cs (remove k m)

  replay-append :
      (xs ys : List (Change C)) (m : StringMap C) → replay (xs ++ ys) m ≡ replay ys (replay xs m)
  unfolding replay
  replay-append [] ys m = refl
  replay-append (inserted k c ∷ xs) ys m = replay-append xs ys (insert k c m)
  replay-append (removed k ∷ xs) ys m = replay-append xs ys (remove k m)

  -- The channel to which the balancer routes for an identifier.
  unfoldable pub route : Discover C → String → Option C
  unfolding replay
  route s id = get id (replay s.sent [])

  -- The channel of an instance that may be there.
  unfoldable pub channel_of : (String → Option C) → Option ServiceInstance → Option C
  channel_of connect none = none
  channel_of connect (some i) = connect (to_grpc_uri i)

  pub route-updater_insert :
      (s : Discover C) (k id : String) (c : C)
      → route (updater_insert s k c) id ≡ (if str_eq k id then some c else route s id)
  unfolding route updater_insert replay
  route-updater_insert s k id c =
      ap (get id) (replay-append s.sent (inserted k c ∷ []) [])
      ∙ get-insert k id c (replay s.sent [])

  pub route-updater_remove :
      (s : Discover C) (k id : String)
      → route (updater_remove s k) id ≡ (if str_eq k id then none else route s id)
  unfolding route updater_remove replay
  route-updater_remove s k id =
      ap (get id) (replay-append s.sent (removed k ∷ []) []) ∙ get-remove k id (replay s.sent [])

  -- The table, the cache and the balancer agree on every identifier.
  pub record IsLinked (connect : String → Option C) (s : Discover C) : Type 0 where
    pub routed : (id : String) → route s id ≡ channel_of connect (get id s.instances)
    pub cached : (id : String) → get id s.channel_cache ≡ route s id
    pub unique : IsUnique s.instances

  pub new_internal-IsLinked : (connect : String → Option C) → IsLinked connect empty
  unfolding route replay channel_of get
  new_internal-IsLinked connect = record { routed = λ id. refl; cached = λ id. refl; unique = tt }
