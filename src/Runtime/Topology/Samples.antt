-- ===== src/Runtime/Topology/Samples.antt =====
-- Small sets of tasks, and how topology.rs orders them.
use flare_server_core.Prelude.{
  ℕ, ◌≡◌, refl, true, some, List, [], ◌∷◌, ok, err, Result, String, get, insert, adjust, contains,
  arith, str_eq, str_eq_iff, if◌then◌else◌,
}
use flare_server_core.Runtime.Topology.{Item, names, index, topological_sort, missing_dependency}
use flare_server_core.Runtime.Topology.Sound.{IsWalk, dependencies}
use flare_server_core.Runtime.Topology.Complete.{
  IsOrderOf, IsRanked, topological_sort-returns, topological_sort-IsOrderOf,
  topological_sort_acyclic, topological_sort_stuck,
}

abbrev pub diamond : List Item
diamond = ("d", "b" ∷ "c" ∷ []) ∷ ("b", "a" ∷ []) ∷ ("c", "a" ∷ []) ∷ ("a", []) ∷ []

pub topological_sort-diamond :
    topological_sort (λ m. m) diamond ≡ some (ok ("a" ∷ "b" ∷ "c" ∷ "d" ∷ []))
unfolding topological_sort get insert adjust
topological_sort-diamond = refl

topological_sort-cycle :
    topological_sort (λ m. m) (("a", "b" ∷ []) ∷ ("b", "a" ∷ []) ∷ ("c", []) ∷ [])
    ≡ some (err ("a" ∷ "b" ∷ []))
unfolding topological_sort get insert adjust
topological_sort-cycle = refl

topological_sort-missing :
    topological_sort (λ m. m) (("a", "b" ∷ []) ∷ [])
    ≡ some (err ("Item 'a' depends on 'b', but 'b' is not registered" ∷ []))
unfolding topological_sort get insert adjust missing_dependency
topological_sort-missing = refl

topological_sort-twice : topological_sort (λ m. m) (("a", []) ∷ ("a", []) ∷ []) ≡ some (err [])
unfolding topological_sort get insert adjust
topological_sort-twice = refl

IsWalk-in_order : IsWalk (λ m. m)
IsWalk-in_order m p = refl

topological_sort-returns_example :
    (r : Result (List String) (List String)) × (topological_sort (λ m. m) diamond ≡ some r)
topological_sort-returns_example = topological_sort-returns (λ m. m) diamond IsWalk-in_order

topological_sort-IsOrderOf_example : IsOrderOf diamond ("a" ∷ "b" ∷ "c" ∷ "d" ∷ [])
topological_sort-IsOrderOf_example =
    topological_sort-IsOrderOf (λ m. m) diamond ("a" ∷ "b" ∷ "c" ∷ "d" ∷ []) IsWalk-in_order
      topological_sort-diamond

abbrev twins : List Item
twins = ("a", []) ∷ ("a", []) ∷ []

abbrev pair : List Item
pair = ("b", "a" ∷ []) ∷ ("a", []) ∷ []

abbrev rank : String → ℕ
rank x = if str_eq "b" x then 1 else 0

pair-IsRanked : IsRanked rank pair
unfolding index get insert
pair-IsRanked x d known needs = ground (
  arith,
  str_eq_iff "b" x,
  str_eq_iff "a" x,
  str_eq_iff "a" d,
  str_eq_iff "b" d,
  str_eq_iff "a" "b",
)

topological_sort_acyclic_example :
    (sorted : List String) × (topological_sort (λ m. m) pair ≡ some (ok sorted))
    × IsOrderOf pair sorted
topological_sort_acyclic_example =
    topological_sort_acyclic (λ m. m) rank pair IsWalk-in_order (refl, (refl, tt)) pair-IsRanked

abbrev ring : List Item
ring = ("a", "b" ∷ []) ∷ ("b", "a" ∷ []) ∷ ("c", []) ∷ []

topological_sort_stuck_example :
    (contains "a" (names ring) ≡ true)
    × ((d : String) × (contains d (dependencies ring "a") ≡ true)
        × (contains d ("a" ∷ "b" ∷ []) ≡ true))
unfolding topological_sort index get insert adjust
topological_sort_stuck_example =
    topological_sort_stuck (λ m. m) ring ("a" ∷ "b" ∷ []) "a" IsWalk-in_order refl refl refl
