-- ===== src/Runtime/Manager/Sorted.antt =====
-- sort_tasks of manager.rs gives every task once, behind those that it depends on.
use flare_server_core.Prelude.{
  ℕ, ◌≡◌, ◌≤◌, refl, sym, ap, ◌∙◌, subst, false, ◌||◌, Option, none, some, String, List, [], ◌∷◌,
  Result, ok, err, map, contains, occurrences, contains-occurrences, IsDistinct, StringMap, get,
  insert, remove, get-insert, get-remove, is_some, values, arith, str_eq, str_eq_iff, str_eq_self,
  Bool-cases, Option-cases, inl, inr,
}
use flare_server_core.Runtime.Topology.{names, topological_sort}
use flare_server_core.Runtime.Topology.Sound.{IsWalk}
use flare_server_core.Runtime.Topology.Complete.{IsOrderOf, topological_sort-IsOrderOf}
use flare_server_core.Runtime.Manager.{
  Task, item, by_name, push_task, take_in_order, order_tasks, order_result, sort_tasks,
}

-- Each task stands under its name.
abbrev IsNamed : StringMap Task → Type 0
IsNamed m = (n : String) (t : Task) → get n m ≡ some t → t.name ≡ n

abbrev task_names : List Task → List String
task_names ts = map (λ t. t.name) ts

-- The map of tasks has the names and no others.
abbrev HasNames : StringMap Task → List String → Type 0
HasNames m ns = (n : String) → is_some (get n m) ≡ contains n ns

no_names : (m : StringMap Task) → HasNames m [] → m ≡ []
unfolding get
no_names [] h = refl
no_names ((k, t) ∷ m) h = absurd (ground (arith, h k, str_eq_self k))

get_removed :
    (n k : String) (m : StringMap Task) (t : Task) → get k (remove n m) ≡ some t → get k m ≡ some t
get_removed n k m t at = elim (Bool-cases (str_eq n k)) [
  | inl same ↦ absurd (ground (arith, get-remove n k m, same, at))
  | inr other ↦ ground (arith, get-remove n k m, other, at)
]

remove-HasNames :
    (n : String) (ns : List String) (m : StringMap Task)
    → contains n ns ≡ false
    → HasNames m (n ∷ ns)
    → HasNames (remove n m) ns
remove-HasNames n ns m new has k = elim (Bool-cases (str_eq n k)) [
  | inl same ↦
      let away : contains k ns ≡ false =
        subst (λ j. contains j ns ≡ false) ((str_eq_iff n k).0 same) new in
      ground (arith, get-remove n k m, same, away)
  | inr other ↦ ground (arith, get-remove n k m, other, has k)
]

take_in_order-names :
    (ns : List String) (m : StringMap Task)
    → IsDistinct ns
    → IsNamed m
    → HasNames m ns
    → task_names (take_in_order ns m) ≡ ns
unfolding take_in_order
take_in_order-names [] m distinct named has = ap (λ l. task_names (values l)) (no_names m has)
take_in_order-names (n ∷ ns) m (new, distinct) named has = elim (Option-cases (get n m)) [
  | inl missing ↦ absurd (ground (arith, missing, has n, str_eq_self n))
  | inr (t, there) ↦
      ap (λ o. task_names (push_task o (take_in_order ns (remove n m)))) there
      ∙ ap (λ x. x ∷ task_names (take_in_order ns (remove n m))) (named n t there)
      ∙ ap (λ l. n ∷ l)
          (take_in_order-names ns (remove n m) distinct
            (λ k x at. named k x (get_removed n k m x at)) (remove-HasNames n ns m new has))
]

by_name-IsNamed : (ts : List Task) (m : StringMap Task) → IsNamed m → IsNamed (by_name ts m)
unfolding by_name
by_name-IsNamed [] m named = named
by_name-IsNamed (t ∷ ts) m named = by_name-IsNamed ts (insert t.name t m) (λ n x at.
    elim (Bool-cases (str_eq t.name n)) [
      | inl same ↦
          let this : t ≡ x = ground (arith, get-insert t.name n t m, same, at) in
          ap (λ (y : Task). y.name) (sym this) ∙ (str_eq_iff t.name n).0 same
      | inr other ↦ named n x (ground (arith, get-insert t.name n t m, other, at))
    ])

by_name-HasNames :
    (ts : List Task) (m : StringMap Task) (n : String)
    → is_some (get n (by_name ts m)) ≡ (contains n (task_names ts) || is_some (get n m))
unfolding by_name
by_name-HasNames [] m n = refl
by_name-HasNames (t ∷ ts) m n =
    by_name-HasNames ts (insert t.name t m) n ∙ ground (arith, get-insert t.name n t m)

IsDistinct-of_once : (xs : List String) → ((x : String) → occurrences x xs ≤ 1) → IsDistinct xs
IsDistinct-of_once [] once = tt
IsDistinct-of_once (x ∷ xs) once = (
  ground (arith, once x, str_eq_self x, (contains-occurrences x xs).0),
  IsDistinct-of_once xs (λ y. ground (arith, once y)),
)

contains_same :
    (x : String) (xs ys : List String)
    → occurrences x xs ≡ occurrences x ys
    → contains x xs ≡ contains x ys
contains_same x xs ys same = ground (
  arith,
  same,
  (contains-occurrences x xs).0,
  (contains-occurrences x xs).1,
  (contains-occurrences x ys).0,
  (contains-occurrences x ys).1,
)

names-item : (ts : List Task) → names (map item ts) ≡ task_names ts
names-item [] = refl
names-item (t ∷ ts) = ap (λ l. t.name ∷ l) (names-item ts)

take_in_order-by_name :
    (ts : List Task) (ns : List String)
    → IsOrderOf (map item ts) ns
    → task_names (take_in_order ns (by_name ts [])) ≡ ns
unfolding get
take_in_order-by_name ts ns order =
    take_in_order-names ns (by_name ts [])
      (IsDistinct-of_once ns (λ x. subst (λ k. k ≤ 1) (sym (order.same x)) (order.once x)))
      (by_name-IsNamed ts [] (λ n t at. cc))
      (λ n.
        by_name-HasNames ts [] n
        ∙ ground (arith, contains_same n ns (names (map item ts)) (order.same n), names-item ts))

order_result-IsOrderOf :
    (ts sorted : List Task) (r : Option (Result (List String) (List String)))
    → ((ns : List String) → r ≡ some (ok ns) → IsOrderOf (map item ts) ns)
    → order_result ts r ≡ some (ok sorted)
    → IsOrderOf (map item ts) (task_names sorted)
unfolding order_result order_tasks
order_result-IsOrderOf ts sorted none h e = cc
order_result-IsOrderOf ts sorted (some (err cycle)) h e = cc
order_result-IsOrderOf ts sorted (some (ok ns)) h e =
    let order = h ns refl in
    let same : take_in_order ns (by_name ts []) ≡ sorted = ground (arith, e) in
    subst (IsOrderOf (map item ts)) (sym (take_in_order-by_name ts ns order) ∙ ap task_names same)
      order

-- Where sort_tasks gives tasks, no two of the added tasks have one name, and it gives each of them
-- exactly once, by its name, behind all of the tasks that it depends on.
pub sort_tasks-IsOrderOf :
    (iterate : StringMap ℕ → StringMap ℕ) (tasks sorted : List Task)
    → IsWalk iterate
    → sort_tasks iterate tasks ≡ some (ok sorted)
    → IsOrderOf (map item tasks) (map (λ t. t.name) sorted)
unfolding sort_tasks
sort_tasks-IsOrderOf iterate tasks sorted walk e =
    order_result-IsOrderOf tasks sorted (topological_sort iterate (map item tasks))
      (λ ns. topological_sort-IsOrderOf iterate (map item tasks) ns walk) e
