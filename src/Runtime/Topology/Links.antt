-- ===== src/Runtime/Topology/Links.antt =====
-- What the first half of topology.rs builds: the counts and the dependents of every item.
use flare_server_core.Prelude.{
  ℕ, ◌+◌, ◌*◌, ◌≡◌, refl, sym, ap, ◌∙◌, Bool, true, false, ◌||◌, none, some, String, List, [], ◌∷◌,
  ◌++◌, ok, err, length, contains, occurrences, occurrences-append, all, StringMap, get, insert,
  adjust, is_some, unwrap_or, if◌then◌else◌, get-insert, get-adjust_self, get-adjust_ne, IsUnique,
  insert-IsUnique, adjust-IsUnique, arith, str_eq, str_eq_iff, Bool-cases, Option-cases, inl, inr,
  ◌⊎◌,
}
use flare_server_core.Runtime.Topology.{
  Item, index, names, Graph, init, missing_dependency, link, Linked, link_deps, link_item, link_all,
}

-- The index holds exactly the names of the items.
pub is_some-index :
    (x : String) (items : List Item) (m : StringMap (List String))
    → is_some (get x (index items m)) ≡ (is_some (get x m) || contains x (names items))
unfolding index
is_some-index x [] m = ground arith
is_some-index x ((name, deps) ∷ items) m =
    ground (arith, is_some-index x items (insert name deps m), get-insert name x deps m)

pub get-init_degree :
    (x : String) (ns : List String) (g : Graph)
    → get x (init ns g).in_degree ≡ (if contains x ns then some 0 else get x g.in_degree)
unfolding init
get-init_degree x [] g = refl
get-init_degree x (n ∷ ns) g = ground (
  arith,
  get-init_degree x ns
      (record { dependents = insert n [] g.dependents; in_degree = insert n 0 g.in_degree }),
  get-insert n x 0 g.in_degree,
)

pub get-init_dependents :
    (x : String) (ns : List String) (g : Graph)
    → get x (init ns g).dependents ≡ (if contains x ns then some [] else get x g.dependents)
unfolding init
get-init_dependents x [] g = refl
get-init_dependents x (n ∷ ns) g = ground (
  arith,
  get-init_dependents x ns
      (record { dependents = insert n [] g.dependents; in_degree = insert n 0 g.in_degree }),
  get-insert n x [] g.dependents,
)

-- For the known items, `E` gives the counts, and `D k x` how often `x` stands among the dependents
-- of `k`.
pub record Describes (ns : List String) (g : Graph) (D : String → String → ℕ) (E : String → ℕ)
    : Type 0 where
  pub degree : (x : String) → contains x ns ≡ true → get x g.in_degree ≡ some (E x)
  pub dependents :
      (k : String)
      → contains k ns ≡ true
      → (l : List String) × (get k g.dependents ≡ some l) × ((x : String) → occurrences x l ≡ D k x)
  pub unknown : (x : String) → contains x ns ≡ false → get x g.in_degree ≡ none
  pub unique : IsUnique g.in_degree

pub Describes-cong :
    {ns : List String} {g : Graph} {D D' : String → String → ℕ} {E E' : String → ℕ}
    → ((k x : String) → D k x ≡ D' k x)
    → ((x : String) → E x ≡ E' x)
    → Describes ns g D E
    → Describes ns g D' E'
Describes-cong hd he d = record {
  degree = λ x known. d.degree x known ∙ ap some (he x);
  dependents = λ k known.
      let (l, found, counts) = d.dependents k known in (l, found, λ x. counts x ∙ hd k x);
  unknown = d.unknown;
  unique = d.unique;
}

init-IsUnique :
    (ns : List String) (g : Graph) → IsUnique g.in_degree → IsUnique (init ns g).in_degree
unfolding init
init-IsUnique [] g u = u
init-IsUnique (n ∷ ns) g u = init-IsUnique ns _ (insert-IsUnique n 0 g.in_degree u)

-- Before the links every known item has the count 0 and no dependents.
pub init-Describes :
    (ns : List String)
    → Describes ns (init ns (record { dependents = []; in_degree = [] })) (λ k x. 0) (λ x. 0)
unfolding get
init-Describes ns = record {
  degree = λ x known. get-init_degree x ns _ ∙ rw known;
  dependents = λ k known. ([], get-init_dependents k ns _ ∙ rw known, λ x. refl);
  unknown = λ x absent. get-init_degree x ns _ ∙ rw absent;
  unique = init-IsUnique ns _ tt;
}

abbrev pub one_if : Bool → ℕ → ℕ
one_if b n = if b then n else 0

link-Describes :
    (ns : List String) (name dep : String) (g : Graph) (D : String → String → ℕ) (E : String → ℕ)
    → Describes ns g D E
    → contains name ns ≡ true
    → contains dep ns ≡ true
    → (g' : Graph) × (link name dep g ≡ some g')
      × Describes ns g'
          (λ k x. D k x + one_if (str_eq name x) (one_if (str_eq dep k) 1))
          (λ x. E x + one_if (str_eq name x) 1)
unfolding link
link-Describes ns name dep g D E d known_name known_dep =
    let (l, found, counts) = d.dependents dep known_dep in
    (
      record {
        dependents = adjust dep (λ l. l ++ name ∷ []) g.dependents;
        in_degree = adjust name (λ d. d + 1) g.in_degree;
      },
      rw (d.degree name known_name, found),
      record {
        degree = degree;
        dependents = dependents;
        unknown = unknown;
        unique = adjust-IsUnique name (λ d. d + 1) g.in_degree d.unique;
      },
    )
  where
    unknown :
        (x : String) → contains x ns ≡ false → get x (adjust name (λ d. d + 1) g.in_degree) ≡ none
    unknown x absent = elim (Bool-cases (str_eq name x)) [
      | inl hit ↦ let here : name ≡ x = (str_eq_iff name x).0 hit in cc (here, known_name, absent)
      | inr miss ↦ get-adjust_ne name x (λ d. d + 1) g.in_degree miss ∙ d.unknown x absent
    ]

    degree :
        (x : String)
        → contains x ns ≡ true
        → get x (adjust name (λ d. d + 1) g.in_degree) ≡ some (E x + one_if (str_eq name x) 1)
    degree x known = elim (Bool-cases (str_eq name x)) [
      | inl hit ↦
          let here : name ≡ x = (str_eq_iff name x).0 hit in
          rw (hit, ← here)
            (get-adjust_self name (λ d. d + 1) g.in_degree (E name) (d.degree name known_name))
      | inr miss ↦ rw miss (
          get-adjust_ne name x (λ d. d + 1) g.in_degree miss
          ∙ d.degree x known
          ∙ ap some (omega arith))
    ]

    dependents :
        (k : String)
        → contains k ns ≡ true
        → (l : List String) × (get k (adjust dep (λ l. l ++ name ∷ []) g.dependents) ≡ some l)
          × ((x : String)
              → occurrences x l ≡ D k x + one_if (str_eq name x) (one_if (str_eq dep k) 1))
    dependents k known = elim (Bool-cases (str_eq dep k)) [
      | inl hit ↦
          let here : dep ≡ k = (str_eq_iff dep k).0 hit in
          let (l, found, counts) = d.dependents k known in
          (
            l ++ name ∷ [],
            rw here (get-adjust_self k (λ l. l ++ name ∷ []) g.dependents l found),
            λ x. rw hit (
                occurrences-append x l (name ∷ [])
                ∙ ap (λ (n : ℕ). n + one_if (str_eq name x) 1) (counts x)),
          )
      | inr miss ↦
          let (l, found, counts) = d.dependents k known in
          (
            l,
            get-adjust_ne dep k (λ l. l ++ name ∷ []) g.dependents miss ∙ found,
            λ x. rw miss (ground (arith, counts x)),
          )
    ]

-- Whether every dependency is an indexed item.
abbrev pub registered : StringMap (List String) → List String → Bool
registered item_map deps = all (λ d. is_some (get d item_map)) deps

-- A linking step succeeds with a graph of which `P` holds, or names a missing dependency.
abbrev pub Links : Bool → (Graph → Type 0) → Linked → Type 0
Links known P r =
    ((known ≡ true) × ((g : Graph) × (r ≡ some (ok g)) × P g))
    ⊎ ((known ≡ false)
        × ((name : String) × (dep : String) × (r ≡ some (err (missing_dependency name dep ∷ [])))))

module _ (ns : List String) (item_map : StringMap (List String))
    (indexed : (x : String) → is_some (get x item_map) ≡ contains x ns) where
  link_deps-Links :
      (name : String) (deps : List String) (g : Graph) (D : String → String → ℕ) (E : String → ℕ)
      → contains name ns ≡ true
      → Describes ns g D E
      → Links
          (registered item_map deps)
          (λ g'.
            Describes ns g'
              (λ k x. D k x + one_if (str_eq name x) (occurrences k deps))
              (λ x. E x + one_if (str_eq name x) (length deps)))
          (link_deps item_map name deps g)
  unfolding link_deps
  link_deps-Links name [] g D E known d =
      inl (refl, (g, refl, Describes-cong (λ k x. ground arith) (λ x. ground arith) d))
  link_deps-Links name (dep ∷ deps) g D E known d = elim (Option-cases (get dep item_map)) [
    | inl missing ↦ rw (missing, link_deps) (inr (refl, (name, dep, refl)))
    | inr (l, found) ↦
        let known_dep : contains dep ns ≡ true = sym (indexed dep) ∙ ap is_some found in
        let (g', linked, d') = link-Describes ns name dep g D E d known known_dep in
        rw (found, link_deps, linked)
          (elim (link_deps-Links name deps g' _ _ known d') [
            | inl (all_known, (h, done, dh)) ↦
                inl (
                  all_known,
                  (h, done, Describes-cong (λ k x. ground arith) (λ x. ground arith) dh),
                )
            | inr failed ↦ inr failed
          ])
  ]

  -- The dependencies that the index gives for a name.
  abbrev pub deps_at : String → List String
  deps_at x = unwrap_or [] (get x item_map)

  link_item-Links :
      (name : String) (g : Graph) (D : String → String → ℕ) (E : String → ℕ)
      → contains name ns ≡ true
      → Describes ns g D E
      → Links
          (registered item_map (deps_at name))
          (λ g'.
            Describes ns g'
              (λ k x. D k x + one_if (str_eq name x) (occurrences k (deps_at name)))
              (λ x. E x + one_if (str_eq name x) (length (deps_at name))))
          (link_item item_map name g)
  unfolding link_item
  link_item-Links name g D E known d = elim (Option-cases (get name item_map)) [
    | inl missing ↦ ground (arith, indexed name)
    | inr (l, found) ↦ rw (found, link_item) (link_deps-Links name l g D E known d)
  ]

  abbrev pub counts_after : List String → (String → String → ℕ) → String → String → ℕ
  counts_after ms D k x = D k x + occurrences x ms * occurrences k (deps_at x)

  abbrev pub degrees_after : List String → (String → ℕ) → String → ℕ
  degrees_after ms E x = E x + occurrences x ms * length (deps_at x)

  one_more :
      (name x : String) (ms : List String) (f : String → ℕ) (b : ℕ)
      → b + one_if (str_eq name x) (f name) + occurrences x ms * f x
        ≡ b + occurrences x (name ∷ ms) * f x
  one_more name x ms f b = elim (Bool-cases (str_eq name x)) [
    | inl hit ↦ let here : name ≡ x = (str_eq_iff name x).0 hit in rw (hit, here) (omega arith)
    | inr miss ↦ rw miss (omega arith)
  ]

  -- Linking all items counts each dependency once for each time that its item is listed, and fails
  -- exactly where a dependency of one of them is not an item.
  pub link_all-Links :
      (ms : List String) (g : Graph) (D : String → String → ℕ) (E : String → ℕ)
      → all (λ m. contains m ns) ms ≡ true
      → Describes ns g D E
      → Links
          (all (λ m. registered item_map (deps_at m)) ms)
          (λ g'. Describes ns g' (counts_after ms D) (degrees_after ms E))
          (link_all item_map ms g)
  unfolding link_all
  link_all-Links [] g D E known d =
      inl (refl, (g, refl, Describes-cong (λ k x. omega arith) (λ x. omega arith) d))
  link_all-Links (m ∷ ms) g D E known d = elim (link_item-Links m g D E (ground arith) d) [
    | inl (here, (g', linked, d')) ↦
        rw (linked, link_all, here)
          (elim (link_all-Links ms g' _ _ (ground arith) d') [
            | inl (rest, (h, done, dh)) ↦ inl (
              rest,
              (
                h,
                done,
                Describes-cong (λ k x. one_more m x ms (λ y. occurrences k (deps_at y)) (D k x))
                    (λ x. one_more m x ms (λ y. length (deps_at y)) (E x)) dh,
              ),
            )
            | inr failed ↦ inr failed
          ])
    | inr (missing, (name, dep, e)) ↦ rw (e, link_all, missing) (inr (refl, (name, dep, refl)))
  ]
