-- ===== src/Runtime/Topology/Kahn.antt =====
-- The main loop of topology.rs: what holds of the queue, the counts and the processed items.
use flare_server_core.Prelude.{
  ℕ, zero, suc, ◌+◌, ◌-◌, ◌*◌, ◌≤◌, ◌<◌, ◌≡◌, refl, sym, ap, ◌∙◌, subst, true, false, ◌||◌, Option,
  some, String, List, [], ◌∷◌, ◌++◌, length, contains, contains-occurrences, occurrences,
  all_of_contains, StringMap, get, if◌then◌else◌, ◌==◌, arith, str_eq_iff, str_eq_self, Bool-cases,
  inl, inr,
}
use mathlib.Core.List.{reverse, reverse-cons}
use flare_server_core.Runtime.Topology.{Progress, update_dependents, visit, round, process, total}
use flare_server_core.Runtime.Topology.Queue.{Counts, Updated, update_dependents-Updated}

-- How many of the dependencies are not processed.
abbrev pub unmet : List String → List String → ℕ
unmet done [] = 0
unmet done (d ∷ ds) = if contains d done then unmet done ds else suc (unmet done ds)

pub unmet-cons :
    (k : String) (done ds : List String)
    → contains k done ≡ false
    → unmet done ds ≡ unmet (k ∷ done) ds + occurrences k ds
unmet-cons k done [] h = omega arith
unmet-cons k done (d ∷ ds) h =
    ground (arith, unmet-cons k done ds h, str_eq_iff k d, str_eq_iff d k)

pub zero_product : (a b : ℕ) → 1 ≤ a → a * b ≡ 0 → b ≡ 0
zero_product zero b h e = absurd (omega arith)
zero_product (suc a) zero h e = refl
zero_product (suc a) (suc b) h e = absurd (omega arith)

one-le-product : (a b : ℕ) → 1 ≤ a → 1 ≤ b → 1 ≤ a * b
one-le-product zero b h k = absurd (omega arith)
one-le-product (suc a) zero h k = absurd (omega arith)
one-le-product (suc a) (suc b) h k = omega arith

module _ (ns : List String) (deps : String → List String) where
  -- Newest first: each item is known, was not processed before, and had no dependency left.
  abbrev pub Settled : List String → Type 0
  Settled [] = Unit
  Settled (x ∷ done) =
      (contains x ns ≡ true) × (contains x done ≡ false) × (unmet done (deps x) ≡ 0) × Settled done

  pub record Inv (queue done : List String) (degrees : StringMap ℕ) : Type 0 where
    pub counts : Counts ns degrees (λ x. occurrences x ns * unmet done (deps x))
    pub queued :
        (x : String) → contains x queue ≡ true → (contains x ns ≡ true) × (unmet done (deps x) ≡ 0)
    pub waiting :
        (x : String)
        → contains x ns ≡ true
        → unmet done (deps x) ≡ 0
        → (contains x done || contains x queue) ≡ true
    pub settled : Settled done

  -- The dependents of `k`, each as often as it is listed and depends on `k`.
  abbrev pub Dependents : StringMap (List String) → Type 0
  Dependents m =
      (k : String)
      → contains k ns ≡ true
      → (l : List String) × (get k m ≡ some l)
        × ((x : String) → occurrences x l ≡ occurrences x ns * occurrences k (deps x))

  skip-Inv :
      (k : String) (rest done : List String) (degrees : StringMap ℕ)
      → contains k done ≡ true
      → Inv (k ∷ rest) done degrees
      → Inv rest done degrees
  skip-Inv k rest done degrees old i = record {
    counts = i.counts;
    queued = λ x m. i.queued x (ground (arith, m));
    waiting = λ x known none_left. ground (arith, i.waiting x known none_left, str_eq_iff k x, old);
    settled = i.settled;
  }

  -- Every dependent of a known item is known.
  dependents_known :
      (k : String) (l : List String)
      → ((x : String) → occurrences x l ≡ occurrences x ns * occurrences k (deps x))
      → (x : String) → contains x l ≡ true
      → contains x ns ≡ true
  dependents_known k l counts x m = (contains-occurrences x ns).1 (
      positive (occurrences x ns) (occurrences k (deps x))
        (subst (λ n. 1 ≤ n) (counts x) ((contains-occurrences x l).0 m)))
    where
      positive : (a b : ℕ) → 1 ≤ a * b → 1 ≤ a
      positive zero b h = absurd (omega arith)
      positive (suc a) b h = omega arith

  enough :
      (k : String) (done : List String) (a : ℕ) (ds : List String)
      → contains k done ≡ false
      → (a * occurrences k ds ≤ a * unmet done ds)
        × (a * unmet done ds - a * occurrences k ds ≡ a * unmet (k ∷ done) ds)
  enough k done a ds new =
      let e = unmet-cons k done ds new in
      let product : a * unmet done ds ≡ a * unmet (k ∷ done) ds + a * occurrences k ds =
        ap (λ (t : ℕ). a * t) e ∙ omega arith in
      omega arith

  module _ (m : StringMap (List String)) (links : Dependents m) where
    -- What a round gives: the invariant for the new queue, the items in the order of processing,
    -- and less work.
    pub record Moved (s : Progress) (size : ℕ) (r : Option Progress) : Type 0 where
      pub next : Progress
      pub returned : r ≡ some next
      pub inv : Inv next.queue next.processed next.degrees
      pub in_order : next.sorted ≡ reverse next.processed
      pub work : length next.queue + total next.degrees < size

    visited :
        (k : String) (rest done l : List String) (degrees : StringMap ℕ)
        → contains k done ≡ false
        → Inv (k ∷ rest) done degrees
        → ((x : String) → occurrences x l ≡ occurrences x ns * occurrences k (deps x))
        → (u : Updated ns l
            (λ x. occurrences x ns * unmet done (deps x))
            degrees
            rest
            (update_dependents l degrees rest))
        → Inv u.queue' (k ∷ done) u.degrees'
    visited k rest done l degrees new i counts u = record {
      counts = λ x known.
          u.counts x known
          ∙ ap some (rw (counts x) (enough k done (occurrences x ns) (deps x) new).1);
      queued = λ x now. elim (Bool-cases (contains x rest)) [
        | inl before ↦
            let (known, none_left) = i.queued x (ground arith) in
            (known, omega (arith, unmet-cons k done (deps x) new))
        | inr absent ↦
            let (listed, zero_now) = reached x now absent in
            let known = dependents_known k l counts x listed in
            (
              known,
              zero_product (occurrences x ns) (unmet (k ∷ done) (deps x))
                  ((contains-occurrences x ns).0 known) (sym (left_over x) ∙ zero_now),
            )
      ];
      waiting = λ x known none_left. elim (Bool-cases (unmet done (deps x) == 0)) [
        | inl before ↦ ground (arith, i.waiting x known (ground arith), u.queued x, str_eq_iff k x)
        | inr now ↦
            let listed : 1 ≤ occurrences k (deps x) =
              ground (arith, unmet-cons k done (deps x) new) in
            let at_l : contains x l ≡ true = (contains-occurrences x l).1 (
              subst (λ n. 1 ≤ n) (sym (counts x))
                (one-le-product (occurrences x ns) (occurrences k (deps x))
                  ((contains-occurrences x ns).0 known) listed)) in
            ground
              (arith, u.queued x, left_over x, at_l, ap (λ (t : ℕ). occurrences x ns * t) none_left)
      ];
      settled =
          let (known, none_left) = i.queued k (ground (arith, str_eq_self k)) in
          (known, new, none_left, i.settled);
    }
      where
        left_over :
            (x : String)
            → occurrences x ns * unmet done (deps x) - occurrences x l
              ≡ occurrences x ns * unmet (k ∷ done) (deps x)
        left_over x = rw (counts x) (enough k done (occurrences x ns) (deps x) new).1

        reached :
            (x : String)
            → contains x u.queue' ≡ true
            → contains x rest ≡ false
            → (contains x l ≡ true) × (occurrences x ns * unmet done (deps x) - occurrences x l ≡ 0)
        reached x now absent = ground (arith, u.queued x)

    visit-Moved :
        (s : Progress) (k : String) (rest : List String)
        → contains k s.processed ≡ false
        → Inv (k ∷ rest) s.processed s.degrees
        → s.sorted ≡ reverse s.processed
        → Moved s (length (k ∷ rest) + total s.degrees) (visit m s k rest)
    unfolding visit
    visit-Moved s k rest new i order =
        let (known, none_left) = i.queued k (ground (arith, str_eq_self k)) in
        let (l, found, counts) = links k known in
        let u =
          update_dependents-Updated ns l (λ x. occurrences x ns * unmet s.processed (deps x))
            s.degrees rest i.counts
            (all_of_contains (λ x. contains x ns) l (dependents_known k l counts))
            (λ x. rw (counts x) (enough k s.processed (occurrences x ns) (deps x) new).0) in
        rw (found, visit, u.returned)
          (record {
            next = record {
              degrees = u.degrees';
              queue = u.queue';
              processed = k ∷ s.processed;
              sorted = s.sorted ++ k ∷ [];
            };
            returned = refl;
            inv = visited k rest s.processed l s.degrees new i counts u;
            in_order = ap (λ l. l ++ k ∷ []) order ∙ sym (reverse-cons k s.processed);
            work = omega (arith, u.work);
          })

    round-Moved :
        (s : Progress) (k : String) (rest : List String)
        → Inv (k ∷ rest) s.processed s.degrees
        → s.sorted ≡ reverse s.processed
        → Moved s (length (k ∷ rest) + total s.degrees) (round m s k rest)
    unfolding round
    round-Moved s k rest i order = elim (Bool-cases (contains k s.processed)) [
      | inl old ↦
          rw (old, round)
            (record {
              next = record s { queue = rest };
              returned = refl;
              inv = skip-Inv k rest s.processed s.degrees old i;
              in_order = order;
              work = omega arith;
            })
      | inr new ↦ rw (new, round) (visit-Moved s k rest new i order)
    ]

    -- The loop ends within the fuel, with an empty queue, and the result in the order of processing.
    pub record Finished (r : Option Progress) : Type 0 where
      pub last : Progress
      pub returned : r ≡ some last
      pub inv : Inv [] last.processed last.degrees
      pub in_order : last.sorted ≡ reverse last.processed

    pub process-Finished :
        (fuel : ℕ) (s : Progress) (queue : List String)
        → length queue + total s.degrees < fuel
        → Inv queue s.processed s.degrees
        → s.sorted ≡ reverse s.processed
        → Finished (process fuel m s queue)
    unfolding process
    process-Finished zero s queue h i order = absurd (omega arith)
    process-Finished (suc fuel) s [] h i order = record {
      last = s;
      returned = refl;
      inv = i;
      in_order = order;
    }
    process-Finished (suc fuel) s (k ∷ rest) h i order =
        let moved = round-Moved s k rest i order in
        rw (moved.returned, process)
          (process-Finished fuel moved.next moved.next.queue (omega (arith, moved.work)) moved.inv
            moved.in_order)
