-- ===== src/Runtime/Topology.antt =====
-- flare-core-runtime/src/utils/topology.rs: Kahn's algorithm over the dependencies of the tasks.
-- `none` stands for a panic (an `unwrap` of a missing entry, a count below zero) and for a loop that
-- runs out of its fuel. `iterate` is the order in which a hash map is walked.
pub mod Links
pub mod Queue
pub mod Kahn
pub mod Sound
pub mod Complete
mod Samples
use flare_server_core.Prelude.{
  ℕ, zero, suc, ◌+◌, ◌-◌, Bool, true, false, not, ◌&&◌, Option, none, some, String, List, [], ◌∷◌,
  ◌++◌, Result, ok, err, length, contains, filter, map, StringMap, get, insert, adjust, is_some,
  unwrap_or, if◌then◌else◌, ◌==◌, format,
}

abbrev pub Item : Type 0
Item = String × List String

unfoldable pub index : List Item → StringMap (List String) → StringMap (List String)
index [] m = m
index ((name, deps) ∷ items) m = index items (insert name deps m)

abbrev pub names : List Item → List String
names items = map (λ i. i.0) items

-- The dependents of each item, and how many dependencies of it are not yet processed.
pub record Graph : Type 0 where
  pub dependents : StringMap (List String)
  pub in_degree : StringMap ℕ

unfoldable pub init : List String → Graph → Graph
init [] g = g
init (name ∷ ns) g =
    init ns
      (record { dependents = insert name [] g.dependents; in_degree = insert name 0 g.in_degree })

unfoldable pub missing_dependency : String → String → String
missing_dependency name dep =
    format
      ("Item '" ∷ name ∷ "' depends on '" ∷ dep ∷ "', but '" ∷ dep ∷ "' is not registered" ∷ [])

-- One dependency: its count at the item, and the item among its dependents.
link : String → String → Graph → Option Graph
link name dep g =
    if is_some (get name g.in_degree) && is_some (get dep g.dependents)
    then some (record {
      dependents = adjust dep (λ l. l ++ name ∷ []) g.dependents;
      in_degree = adjust name (λ d. d + 1) g.in_degree;
    })
    else none

abbrev pub Linked : Type 0
Linked = Option (Result Graph (List String))

-- The inner loop over the dependencies of one item.
unfoldable pub link_deps : StringMap (List String) → String → List String → Graph → Linked
unfolding link
link_deps item_map name [] g = some (ok g)
link_deps item_map name (dep ∷ deps) g = elim (get dep item_map) [
  | none ↦ some (err (missing_dependency name dep ∷ []))
  | some _ ↦ elim (link name dep g) [ none ↦ none | some g' ↦ link_deps item_map name deps g' ]
]

link_item : StringMap (List String) → String → Graph → Linked
unfolding link_deps
link_item item_map name g = elim (get name item_map) [
  | none ↦ none
  | some deps ↦ link_deps item_map name deps g
]

unfoldable pub link_all : StringMap (List String) → List String → Graph → Linked
unfolding link_item
link_all item_map [] g = some (ok g)
link_all item_map (name ∷ ns) g = elim (link_item item_map name g) [
  | none ↦ none
  | some (err e) ↦ some (err e)
  | some (ok g') ↦ link_all item_map ns g'
]

-- `*degree -= 1`, and the new count.
decrement : String → StringMap ℕ → Option (StringMap ℕ × ℕ)
decrement name degrees = elim (get name degrees) [
  | none ↦ none
  | some d ↦ elim d [ zero ↦ none | suc e ↦ some (adjust name (λ d. d - 1) degrees, e) ]
]

-- The loop over the dependents of a processed item.
unfoldable pub update_dependents :
    List String → StringMap ℕ → List String → Option (StringMap ℕ × List String)
unfolding decrement
update_dependents [] degrees queue = some (degrees, queue)
update_dependents (x ∷ xs) degrees queue = elim (decrement x degrees) [
  | none ↦ none
  | some (degrees', d) ↦ update_dependents xs degrees' (if d == 0 then queue ++ x ∷ [] else queue)
]

-- `processed` lists the set, newest first.
pub record Progress : Type 0 where
  pub degrees : StringMap ℕ
  pub queue : List String
  pub processed : List String
  pub sorted : List String

visit : StringMap (List String) → Progress → String → List String → Option Progress
unfolding update_dependents
visit dependents s current rest =
    elim (update_dependents (unwrap_or [] (get current dependents)) s.degrees rest) [
      | none ↦ none
      | some (degrees, queue) ↦ some (record {
        degrees = degrees;
        queue = queue;
        processed = current ∷ s.processed;
        sorted = s.sorted ++ current ∷ [];
      })
    ]

-- One round of the `while` loop; the queue is `current ∷ rest`.
round : StringMap (List String) → Progress → String → List String → Option Progress
unfolding visit
round dependents s current rest =
    if contains current s.processed
    then some (record s { queue = rest })
    else visit dependents s current rest

unfoldable pub process : ℕ → StringMap (List String) → Progress → List String → Option Progress
unfolding round
process zero dependents s queue = none
process (suc fuel) dependents s [] = some s
process (suc fuel) dependents s (current ∷ rest) = elim (round dependents s current rest) [
  | none ↦ none
  | some s' ↦ process fuel dependents s' s'.queue
]

abbrev pub total : StringMap ℕ → ℕ
total [] = 0
total ((k, d) ∷ m) = d + total m

roots : StringMap ℕ → List String
roots degrees = map (λ e. e.0) (filter (λ e. e.1 == 0) degrees)

-- The check of the result against the items.
unfoldable pub conclude : List String → Progress → Result (List String) (List String)
conclude item_names s =
    if length s.sorted == length item_names
    then ok s.sorted
    else err (filter (λ name. not (contains name s.processed)) item_names)

unfoldable pub sort_graph :
    (StringMap ℕ → StringMap ℕ) → List String → Graph → Option (Result (List String) (List String))
unfolding process conclude roots
sort_graph iterate item_names g =
    let queue = roots (iterate g.in_degree) in
    elim (process (suc (length queue + total g.in_degree)) g.dependents
      (record { degrees = g.in_degree; queue = queue; processed = []; sorted = [] }) queue) [
        | none ↦ none
        | some s ↦ some (conclude item_names s)
      ]

-- topological_sort
unfoldable pub topological_sort :
    (StringMap ℕ → StringMap ℕ) → List Item → Option (Result (List String) (List String))
unfolding sort_graph index init link_all
topological_sort iterate items =
    elim (link_all (index items []) (names items)
      (init (names items) (record { dependents = []; in_degree = [] }))) [
        | none ↦ none
        | some (err e) ↦ some (err e)
        | some (ok g) ↦ sort_graph iterate (names items) g
      ]
