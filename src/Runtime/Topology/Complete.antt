-- ===== src/Runtime/Topology/Complete.antt =====
-- When topology.rs returns an order and when an error.
use flare_server_core.Prelude.{
  ℕ, zero, suc, ◌≤◌, ◌<◌, ◌≡◌, refl, sym, ap, ◌∙◌, subst, Bool, true, false, not, ◌&&◌, some,
  String, List, [], ◌∷◌, Result, ok, err, length, contains, occurrences, occurrences-IsDistinct,
  IsDistinct, pigeonhole, filter, all, all_of_contains, all_at, StringMap, get, is_some, arith,
  str_eq, str_eq_iff, str_eq_self, Bool-cases, inl, inr,
}
use mathlib.Core.List.{reverse}
use flare_server_core.Runtime.Topology.{Item, Progress, index, names, conclude, topological_sort}
use flare_server_core.Runtime.Topology.Links.{registered, is_some-index}
use flare_server_core.Runtime.Topology.Kahn.{unmet, Inv}
use flare_server_core.Runtime.Topology.Sound.{
  IsWalk, IsOrdered, dependencies, Settled-reverse, Settled-IsDistinct, Settled-known,
  occurrences-reverse, length-reverse, Ends, missing, finished, topological_sort-Ends,
}

-- The sort of any items returns, in whatever order the map of counts is walked: no count goes below
-- zero, no lookup fails, and the loop ends within its fuel.
pub topological_sort-returns :
    (iterate : StringMap ℕ → StringMap ℕ) (items : List Item)
    → IsWalk iterate
    → (r : Result (List String) (List String)) × (topological_sort iterate items ≡ some r)
topological_sort-returns iterate items walk = go (topological_sort-Ends iterate walk items)
  where
    go :
        Ends iterate items
        → (r : Result (List String) (List String)) × (topological_sort iterate items ≡ some r)
    go (missing name dep unknown e) = (err _, e)
    go (finished last known e inv in_order) = (conclude (names items) last, e)

-- The names are pairwise distinct, the result holds each of them once, and every item stands
-- behind all of its dependencies.
pub record IsOrderOf (items : List Item) (sorted : List String) : Type 0 where
  pub same : (x : String) → occurrences x sorted ≡ occurrences x (names items)
  pub once : (x : String) → occurrences x (names items) ≤ 1
  pub ordered : IsOrdered (dependencies items) [] sorted

conclude-IsOrderOf :
    (items : List Item) (last : Progress) (sorted : List String)
    → Inv (names items) (dependencies items) [] last.processed last.degrees
    → last.sorted ≡ reverse last.processed
    → conclude (names items) last ≡ ok sorted
    → IsOrderOf items sorted
unfolding conclude
conclude-IsOrderOf items last sorted inv in_order e =
    let ns = names items in
    let deps = dependencies items in
    let settled = inv.settled in
    let distinct = Settled-IsDistinct ns deps last.processed settled in
    let is_sorted : sorted ≡ reverse last.processed = ground (arith, e, in_order) in
    let long : length last.processed ≡ length ns =
      ground (arith, e, ap length in_order, length-reverse last.processed) in
    let all_of =
      (pigeonhole last.processed ns distinct (Settled-known ns deps last.processed settled)).1
        long in
    record {
      same = λ x. ap (occurrences x) is_sorted ∙ occurrences-reverse x last.processed ∙ all_of x;
      once = λ x. subst (λ n. n ≤ 1) (all_of x) (occurrences-IsDistinct x last.processed distinct);
      ordered = rw is_sorted (Settled-reverse ns deps last.processed settled);
    }

-- Soundness: where the sort returns a list, the items have distinct names, and the list holds each
-- of them exactly once, behind all of its dependencies, in whatever order the map of counts is walked.
pub topological_sort-IsOrderOf :
    (iterate : StringMap ℕ → StringMap ℕ) (items : List Item) (sorted : List String)
    → IsWalk iterate
    → topological_sort iterate items ≡ some (ok sorted)
    → IsOrderOf items sorted
topological_sort-IsOrderOf iterate items sorted walk e =
    go (topological_sort-Ends iterate walk items)
  where
    go : Ends iterate items → IsOrderOf items sorted
    go (missing name dep unknown f) = absurd (cc)
    go (finished last known f inv in_order) =
        conclude-IsOrderOf items last sorted inv in_order (ground (arith, e, f))

-- Two items of one name never sort, whatever their dependencies are: an error comes back.
pub topological_sort_twice :
    (iterate : StringMap ℕ → StringMap ℕ) (items : List Item) (x : String)
    → IsWalk iterate
    → 2 ≤ occurrences x (names items)
    → (e : List String) × (topological_sort iterate items ≡ some (err e))
topological_sort_twice iterate items x walk twice =
    let (r, returned) = topological_sort-returns iterate items walk in go r returned
  where
    go :
        (r : Result (List String) (List String))
        → topological_sort iterate items ≡ some r
        → (e : List String) × (topological_sort iterate items ≡ some (err e))
    go (err e) returned = (e, returned)
    go (ok sorted) returned =
        absurd
          (omega (arith, (topological_sort-IsOrderOf iterate items sorted walk returned).once x))

unmet_met :
    (done ds : List String)
    → ((d : String) → contains d ds ≡ true → contains d done ≡ true)
    → unmet done ds ≡ 0
unmet_met done [] h = refl
unmet_met done (d ∷ ds) h =
    ground (
      arith,
      h d (ground (arith, str_eq_self d)),
      unmet_met done ds (λ x m. h x (ground (arith, m))),
    )

-- Every dependency of an item has a smaller rank: there is no cycle.
abbrev pub IsRanked : (String → ℕ) → List Item → Type 0
IsRanked rank items =
    (x d : String)
    → contains x (names items) ≡ true
    → contains d (dependencies items x) ≡ true
    → (contains d (names items) ≡ true) × (rank d < rank x)

all-registered :
    (rank : String → ℕ) (items : List Item)
    → IsRanked rank items
    → all (λ x. registered (index items []) (dependencies items x)) (names items) ≡ true
unfolding get
all-registered rank items ranked =
    all_of_contains (λ x. registered (index items []) (dependencies items x)) (names items)
      (λ x known.
        all_of_contains (λ d. is_some (get d (index items []))) (dependencies items x)
          (λ d m. is_some-index d items [] ∙ (ranked x d known m).0))

-- By induction on the rank, every item is processed.
ranked_processed :
    (rank : String → ℕ) (items : List Item) (last : Progress)
    → IsRanked rank items
    → Inv (names items) (dependencies items) [] last.processed last.degrees
    → (n : ℕ) (x : String) → rank x < n
    → contains x (names items) ≡ true
    → contains x last.processed ≡ true
ranked_processed rank items last ranked inv zero x h known = absurd (omega arith)
ranked_processed rank items last ranked inv (suc n) x h known =
    let met : unmet last.processed (dependencies items x) ≡ 0 =
      unmet_met last.processed (dependencies items x) (λ d m.
        let (known_d, lower) = ranked x d known m in
        ranked_processed rank items last ranked inv n d (omega arith) known_d) in
    ground (arith, inv.waiting x known met)

-- Completeness: where the names are distinct, the dependencies are items and a rank falls along
-- them, so that there is no cycle, the sort returns a list with every item once, behind its
-- dependencies.
pub topological_sort_acyclic :
    (iterate : StringMap ℕ → StringMap ℕ) (rank : String → ℕ) (items : List Item)
    → IsWalk iterate
    → IsDistinct (names items)
    → IsRanked rank items
    → (sorted : List String) × (topological_sort iterate items ≡ some (ok sorted))
      × IsOrderOf items sorted
unfolding conclude
topological_sort_acyclic iterate rank items walk distinct ranked =
    go (topological_sort-Ends iterate walk items)
  where
    go :
        Ends iterate items
        → (sorted : List String) × (topological_sort iterate items ≡ some (ok sorted))
          × IsOrderOf items sorted
    go (missing name dep unknown f) = absurd (cc (all-registered rank items ranked, unknown))
    go (finished last known f inv in_order) =
        let ns = names items in
        let deps = dependencies items in
        let few =
          (pigeonhole last.processed ns (Settled-IsDistinct ns deps last.processed inv.settled)
            (Settled-known ns deps last.processed inv.settled)).0 in
        let many =
          (pigeonhole ns last.processed distinct (λ x m.
            ranked_processed rank items last ranked inv (suc (rank x)) x (omega arith) m)).0 in
        let long : length last.sorted ≡ length ns =
          ap length in_order ∙ length-reverse last.processed ∙ omega arith in
        let done : conclude ns last ≡ ok last.sorted = ground (arith, long) in
        (last.sorted, f ∙ ap some done, conclude-IsOrderOf items last last.sorted inv in_order done)

contains-filter :
    (p : String → Bool) (x : String) (xs : List String)
    → contains x (filter p xs) ≡ (contains x xs && p x)
contains-filter p x [] = refl
contains-filter p x (y ∷ xs) = elim (Bool-cases (str_eq y x)) [
  | inl hit ↦
      let here : y ≡ x = (str_eq_iff y x).0 hit in
      rw here (ground (arith, contains-filter p x xs, str_eq_self x))
  | inr miss ↦ ground (arith, contains-filter p x xs)
]

unmet_some :
    (done ds : List String)
    → 1 ≤ unmet done ds
    → (d : String) × (contains d ds ≡ true) × (contains d done ≡ false)
unmet_some done [] h = absurd (omega arith)
unmet_some done (d ∷ ds) h = elim (Bool-cases (contains d done)) [
  | inl met ↦
      let (e, listed, left_e) = unmet_some done ds (rw met at h) in
      (e, ground (arith, listed), left_e)
  | inr left ↦ (d, ground (arith, str_eq_self d), left)
]

-- Where every dependency is an item and the sort returns an error, each name in the error is an item
-- with a dependency that the error names too, so that a cycle runs through them.
pub topological_sort_stuck :
    (iterate : StringMap ℕ → StringMap ℕ) (items : List Item) (e : List String) (x : String)
    → IsWalk iterate
    → all (λ x. registered (index items []) (dependencies items x)) (names items) ≡ true
    → topological_sort iterate items ≡ some (err e)
    → contains x e ≡ true
    → (contains x (names items) ≡ true)
      × ((d : String) × (contains d (dependencies items x) ≡ true) × (contains d e ≡ true))
unfolding conclude get
topological_sort_stuck iterate items e x walk registered_all failed named =
    go (topological_sort-Ends iterate walk items)
  where
    go :
        Ends iterate items
        → (contains x (names items) ≡ true)
          × ((d : String) × (contains d (dependencies items x) ≡ true) × (contains d e ≡ true))
    go (missing name dep unknown f) = absurd (cc)
    go (finished last known f inv in_order) =
        let left = λ (y : String). not (contains y last.processed) in
        let rest : e ≡ filter left (names items) = ground (arith, f, failed) in
        let open_x : (contains x (names items) && left x) ≡ true =
          sym (contains-filter left x (names items)) ∙ ap (contains x) (sym rest) ∙ named in
        let known_x : contains x (names items) ≡ true = ground (arith, open_x) in
        let (d, listed, open_d) =
          unmet_some last.processed (dependencies items x)
            (ground (arith, inv.waiting x known_x, open_x)) in
        let deps_known =
          all_at (λ x. registered (index items []) (dependencies items x)) x (names items)
            registered_all known_x in
        let known_d : contains d (names items) ≡ true =
          sym (is_some-index d items [])
          ∙ all_at (λ d. is_some (get d (index items []))) d (dependencies items x) deps_known
              listed in
        (
          known_x,
          (
            d,
            listed,
            ap (contains d) rest
                ∙ contains-filter left d (names items)
                ∙ ground (arith, known_d, open_d),
          ),
        )
