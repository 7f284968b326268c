-- ===== src/Discovery/Samples.antt =====
-- Three turns of a service that moves, and its tags, for discover.rs.
use flare_server_core.Prelude.{
  ℕ, zero, suc, ◌≤◌, ◌≡◌, ◌≢◌, ◌↔◌, arith, refl, Option, none, some, String, List, [], ◌∷◌, ok, err,
  StringMap, get, insert, str_eq, if◌then◌else◌,
}
use flare_server_core.Discovery.Instance.{
  ServiceInstance, TagFilter, new_instance, with_tag, to_grpc_uri,
}
use flare_server_core.Discovery.{Discover, Sender, Answer, backend_failed, collect_from}
use flare_server_core.Discovery
use flare_server_core.Discovery.Waits.{instance_count, from_backend_iff}
use flare_server_core.Discovery.Channels.{route, channel_of}
use flare_server_core.Discovery.Refreshes.{IsWalk}
use flare_server_core.Discovery.Routing.{latest, latest_all, assigned, route-refresh_all}

abbrev connect : String → Option String
connect uri = if str_eq uri "http://nowhere" then none else some uri

abbrev as_is : StringMap ServiceInstance → StringMap ServiceInstance
as_is m = m

as_is-IsWalk : IsWalk as_is
as_is-IsWalk = record { once = λ m u. u; each = λ m u id. refl }

abbrev first_answer : Answer
first_answer =
    ok (new_instance "chat" "a" "10.0.0.1:80" ∷ new_instance "chat" "b" "10.0.0.2:80" ∷ [])

abbrev answers : List Answer
answers =
    ok (new_instance "chat" "a" "10.0.0.9:80" ∷ new_instance "chat" "c" "nowhere" ∷ [])
    ∷ err (backend_failed "timeout")
    ∷ []

moved :
    assigned connect (latest_all (latest [] first_answer) answers) "a" ≡ some "http://10.0.0.9:80"
unfolding assigned collect_from channel_of to_grpc_uri new_instance get insert
moved = refl

-- Room for 16 changes, and a balancer that receives each before the next.
abbrev tx : Sender
tx = record { buffer = 16; received = λ k. k }

began : (s : Discover String) × (Discovery.from_backend connect first_answer ≡ some s)
unfolding Discovery.from_backend new_instance get to_grpc_uri insert
began = (_, refl)

route-refresh_all_example :
    (s' : Discover String) × (Discovery.refresh_all tx connect as_is began.0 answers ≡ some s')
    × ((id : String)
        → route s' id ≡ assigned connect (latest_all (latest [] first_answer) answers) id)
unfolding new_instance
route-refresh_all_example =
    route-refresh_all connect as_is tx first_answer answers began.0 as_is-IsWalk (refl, (refl, tt))
      (λ k. omega arith) began.1

abbrev instances : ℕ → List ServiceInstance
instances zero = []
instances (suc n) = new_instance "chat" "a" "10.0.0.1:80" ∷ instances n

-- The first answer of 17 instances is never taken to its end.
from_backend_iff_example :
    (Discovery.from_backend (λ uri. some uri) (ok (instances 17)) ≢ none)
    ↔ (instance_count (ok (instances 17)) ≤ 16)
from_backend_iff_example =
    from_backend_iff (λ uri. some uri) (ok (instances 17)) (λ uri e. absurd (cc))

abbrev filters : List TagFilter
filters =
    record { key = "svid"; value = some "svid.chat"; pattern = none }
    ∷ record { key = "zone"; value = some "z1"; pattern = none }
    ∷ []

abbrev tagged : StringMap ServiceInstance
tagged =
    ("a", with_tag (new_instance "chat" "a" "10.0.0.1:80") "zone" "z1")
    ∷ ("b", new_instance "chat" "b" "10.0.0.2:80")
    ∷ []
