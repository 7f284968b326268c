-- ===== src/Runtime/Topology/Sound.antt =====
-- What the result of topology.rs is, on every branch.
use flare_server_core.Prelude.{
  ℕ, suc, ◌+◌, ◌*◌, ◌≡◌, ◌↔◌, refl, sym, ap, ◌∙◌, Bool, true, false, ◌&&◌, some, String, List, [],
  ◌∷◌, ◌++◌, err, length, length-append, contains, contains-occurrences, occurrences, all, any,
  all_of_contains, StringMap, get, is_some, unwrap_or, ◌==◌, IsUnique, IsDistinct,
  occurrences-append, arith, str_eq, str_eq_iff, Bool-cases, inl, inr,
}
use mathlib.Core.List.{reverse, reverse-cons, append_assoc, append-nil}
use flare_server_core.Runtime.Topology.{
  Item, Graph, Progress, index, names, roots, total, conclude, sort_graph, topological_sort,
  missing_dependency,
}
use flare_server_core.Runtime.Topology.Kahn.{
  unmet, Settled, Inv, Dependents, process-Finished, zero_product,
}
use flare_server_core.Runtime.Topology.Links.{
  is_some-index, Describes, Describes-cong, init-Describes, registered, link_all-Links,
}

-- A walk of a hash map meets exactly its entries, in any order.
abbrev pub IsWalk : (StringMap ℕ → StringMap ℕ) → Type 0
IsWalk iterate = (m : StringMap ℕ) (p : String × ℕ → Bool) → any p (iterate m) ≡ any p m

-- The dependencies of a name: those of the last item of that name.
abbrev pub dependencies : List Item → String → List String
dependencies items x = unwrap_or [] (get x (index items []))

abbrev is_root : String → String × ℕ → Bool
is_root x e = e.1 == 0 && str_eq e.0 x

contains-roots : (x : String) (m : StringMap ℕ) → contains x (roots m) ≡ any (is_root x) m
unfolding roots
contains-roots x [] = refl
contains-roots x ((k, d) ∷ m) = ground (arith, contains-roots x m)

any-root :
    (x : String) (m : StringMap ℕ) → IsUnique m → (any (is_root x) m ≡ true) ↔ (get x m ≡ some 0)
unfolding get
any-root x [] u = (λ e. cc, λ e. cc)
any-root x ((k, d) ∷ m) u = elim (Bool-cases (str_eq k x)) [
  | inl hit ↦ ground (arith, str_eq_iff k x, any-root x m u.1)
  | inr miss ↦ ground (arith, any-root x m u.1)
]

unmet-nil : (ds : List String) → unmet [] ds ≡ length ds
unmet-nil [] = refl
unmet-nil (d ∷ ds) = ap suc (unmet-nil ds)

module _ (iterate : StringMap ℕ → StringMap ℕ) (walk : IsWalk iterate) (ns : List String)
    (deps : String → List String) (g : Graph)
    (d : Describes ns g
      (λ k x. occurrences x ns * occurrences k (deps x))
      (λ x. occurrences x ns * length (deps x))) where
  roots_iff :
      (x : String)
      → (contains x (roots (iterate g.in_degree)) ≡ true) ↔ (get x g.in_degree ≡ some 0)
  roots_iff x =
      rw (contains-roots x (iterate g.in_degree), walk g.in_degree (is_root x))
        (any-root x g.in_degree d.unique)

  start-Inv : Inv ns deps (roots (iterate g.in_degree)) [] g.in_degree
  start-Inv = record {
    counts = λ x known. d.degree x known ∙ ap some (rw (unmet-nil (deps x)));
    queued = λ x m.
        let zero : get x g.in_degree ≡ some 0 = (roots_iff x).0 m in
        elim (Bool-cases (contains x ns)) [
          | inl known ↦
              let count = d.degree x known in
              let none_left : occurrences x ns * length (deps x) ≡ 0 = ground arith in
              (
                known,
                unmet-nil (deps x)
                    ∙ zero_product (occurrences x ns) (length (deps x))
                        ((contains-occurrences x ns).0 known) none_left,
              )
          | inr absent ↦ let missing = d.unknown x absent in absurd (cc)
        ];
    waiting = λ x known none_left. (roots_iff x).1 (
        d.degree x known
        ∙ ap some (
            ap (λ (t : ℕ). occurrences x ns * t) (sym (unmet-nil (deps x)) ∙ none_left)
            ∙ omega arith));
    settled = tt;
  }

  links : Dependents ns deps g.dependents
  links k known = d.dependents k known

  -- The loop returns, and what it leaves meets the invariant with an empty queue.
  sort_graph_finishes :
      (last : Progress) × (sort_graph iterate ns g ≡ some (conclude ns last))
      × Inv ns deps [] last.processed last.degrees
      × (last.sorted ≡ reverse last.processed)
  unfolding sort_graph
  sort_graph_finishes =
      let queue = roots (iterate g.in_degree) in
      let f =
        process-Finished ns deps g.dependents links (suc (length queue + total g.in_degree))
          (record { degrees = g.in_degree; queue = queue; processed = []; sorted = [] }) queue
          (omega arith) start-Inv refl in
      (f.last, rw (f.returned, sort_graph), f.inv, f.in_order)

-- Every item stands behind its dependencies, which are those in `seen` or before it in the list.
abbrev pub IsOrdered : (String → List String) → List String → List String → Type 0
IsOrdered deps seen [] = Unit
IsOrdered deps seen (x ∷ xs) = (unmet seen (deps x) ≡ 0) × IsOrdered deps (x ∷ seen) xs

module _ (ns : List String) (deps : String → List String) where
  Settled-IsOrdered :
      (done rest : List String)
      → Settled ns deps done
      → IsOrdered deps done rest
      → IsOrdered deps [] (reverse done ++ rest)
  Settled-IsOrdered [] rest s o = o
  Settled-IsOrdered (x ∷ done) rest s o =
      rw (reverse-cons x done, append_assoc) (Settled-IsOrdered done (x ∷ rest) s.3 (s.2, o))

  pub Settled-reverse :
      (done : List String) → Settled ns deps done → IsOrdered deps [] (reverse done)
  Settled-reverse done s = rw append-nil at (Settled-IsOrdered done [] s tt)

  pub Settled-IsDistinct : (done : List String) → Settled ns deps done → IsDistinct done
  Settled-IsDistinct [] s = tt
  Settled-IsDistinct (x ∷ done) s = (s.1, Settled-IsDistinct done s.3)

  pub Settled-known :
      (done : List String)
      → Settled ns deps done
      → (x : String) → contains x done ≡ true
      → contains x ns ≡ true
  Settled-known [] s x m = cc
  Settled-known (y ∷ done) s x m = ground (arith, str_eq_iff y x, Settled-known done s.3 x, s.0)

pub occurrences-reverse :
    (x : String) (l : List String) → occurrences x (reverse l) ≡ occurrences x l
occurrences-reverse x [] = refl
occurrences-reverse x (y ∷ l) =
    ap (occurrences x) (reverse-cons y l)
    ∙ occurrences-append x (reverse l) (y ∷ [])
    ∙ ground (arith, occurrences-reverse x l)

pub length-reverse : (l : List String) → length (reverse l) ≡ length l
length-reverse [] = refl
length-reverse (y ∷ l) =
    omega (
      arith,
      ap length (reverse-cons y l),
      length-append {0} (reverse l) (y ∷ []),
      length-reverse l,
    )

-- The three ways in which the sort can end: a dependency is not an item, or the loop has finished
-- with the state `last`, from which the result is concluded.
pub data Ends (iterate : StringMap ℕ → StringMap ℕ) (items : List Item) : Type 0 where
  missing :
      (name dep : String)
      → all (λ x. registered (index items []) (dependencies items x)) (names items) ≡ false
      → topological_sort iterate items ≡ some (err (missing_dependency name dep ∷ []))
      → Ends iterate items
  finished :
      (last : Progress)
      → all (λ x. registered (index items []) (dependencies items x)) (names items) ≡ true
      → topological_sort iterate items ≡ some (conclude (names items) last)
      → Inv (names items) (dependencies items) [] last.processed last.degrees
      → last.sorted ≡ reverse last.processed
      → Ends iterate items

pub topological_sort-Ends :
    (iterate : StringMap ℕ → StringMap ℕ)
    → IsWalk iterate
    → (items : List Item) → Ends iterate items
unfolding topological_sort get
topological_sort-Ends iterate walk items =
    elim (link_all-Links ns item_map indexed ns _ _ _
      (all_of_contains (λ m. contains m ns) ns (λ x m. m)) (init-Describes ns)) [
        | inl (all_known, (g, linked, d)) ↦
            let (last, returned, inv, in_order) =
              sort_graph_finishes iterate walk ns (dependencies items) g
                (Describes-cong (λ k x. omega arith) (λ x. omega arith) d) in
            finished last all_known (rw (linked, topological_sort) returned) inv in_order
        | inr (unknown, (name, dep, e)) ↦ missing name dep unknown (rw (e, topological_sort))
      ]
  where
    ns : List String
    ns = names items

    item_map : StringMap (List String)
    item_map = index items []

    indexed : (x : String) → is_some (get x item_map) ≡ contains x ns
    indexed x = is_some-index x items []
