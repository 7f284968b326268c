-- ===== src/Runtime/Topology/Queue.antt =====
-- The loop of topology.rs over the dependents of a processed item.
use flare_server_core.Prelude.{
  ℕ, suc, ◌+◌, ◌-◌, ◌≤◌, ◌≡◌, refl, ap, ◌∙◌, true, ◌&&◌, ◌||◌, Option, some, String, List, [], ◌∷◌,
  ◌++◌, length, length-append, contains, contains-append, contains-occurrences, occurrences, all,
  StringMap, get, adjust, if◌then◌else◌, ◌==◌, get-adjust_self, get-adjust_ne, arith, str_eq,
  str_eq_iff, str_eq_self, Bool-cases, inl, inr,
}
use flare_server_core.Runtime.Topology.{decrement, update_dependents, total}

total-adjust :
    (x : String) (m : StringMap ℕ) (d : ℕ)
    → get x m ≡ some (suc d)
    → total (adjust x (λ d. d - 1) m) + 1 ≡ total m
unfolding get adjust
total-adjust x [] d e = cc
total-adjust x ((k, v) ∷ m) d e = ground (arith, total-adjust x m d)

decrement-suc :
    (x : String) (m : StringMap ℕ) (d : ℕ)
    → get x m ≡ some (suc d)
    → decrement x m ≡ some (adjust x (λ d. d - 1) m, d)
unfolding decrement
decrement-suc x m d e = rw (e, decrement)

-- For the known items, the counts are `f`.
abbrev pub Counts : List String → StringMap ℕ → (String → ℕ) → Type 0
Counts ns degrees f = (x : String) → contains x ns ≡ true → get x degrees ≡ some (f x)

-- Every listed dependent has lost one for each time that it is listed, those that reach zero are
-- queued, and the work that is left has not grown.
pub record Updated (ns xs : List String) (f : String → ℕ) (degrees : StringMap ℕ)
    (queue : List String) (r : Option (StringMap ℕ × List String)) : Type 0 where
  pub degrees' : StringMap ℕ
  pub queue' : List String
  pub returned : r ≡ some (degrees', queue')
  pub counts : Counts ns degrees' (λ x. f x - occurrences x xs)
  pub queued :
      (x : String)
      → contains x queue' ≡ (contains x queue || (contains x xs && (f x - occurrences x xs == 0)))
  pub work : total degrees' + length queue' ≤ total degrees + length queue

-- A dependent is queued at its last place in the list, and only if its count is then zero.
queued_step :
    (x y : String) (xs queue : List String) (f : String → ℕ)
    → occurrences y (x ∷ xs) ≤ f y
    → (contains y (if (f x - 1) == 0 then queue ++ x ∷ [] else queue)
        || (contains y xs && ((if str_eq x y then f y - 1 else f y) - occurrences y xs == 0)))
      ≡ (contains y queue || (contains y (x ∷ xs) && (f y - occurrences y (x ∷ xs) == 0)))
queued_step x y xs queue f enough = elim (Bool-cases (str_eq x y)) [
  | inl hit ↦
      let here : x ≡ y = (str_eq_iff x y).0 hit in
      rw (hit, here)
        (ground (
          arith,
          enough,
          contains-append y queue (y ∷ []),
          str_eq_self y,
          (contains-occurrences y xs).1,
        ))
  | inr miss ↦ ground (arith, contains-append y queue (x ∷ []))
]

module _ (ns : List String) where
  Counts-adjust :
      (x : String) (degrees : StringMap ℕ) (f : String → ℕ)
      → contains x ns ≡ true
      → Counts ns degrees f
      → Counts ns (adjust x (λ d. d - 1) degrees) (λ y. if str_eq x y then f y - 1 else f y)
  Counts-adjust x degrees f known c y known_y = elim (Bool-cases (str_eq x y)) [
    | inl hit ↦
        let here : x ≡ y = (str_eq_iff x y).0 hit in
        rw (hit, here) (get-adjust_self y (λ d. d - 1) degrees (f y) (c y known_y))
    | inr miss ↦ rw miss (get-adjust_ne x y (λ d. d - 1) degrees miss ∙ c y known_y)
  ]

  pub update_dependents-Updated :
      (xs : List String) (f : String → ℕ) (degrees : StringMap ℕ) (queue : List String)
      → Counts ns degrees f
      → all (λ x. contains x ns) xs ≡ true
      → ((x : String) → occurrences x xs ≤ f x)
      → Updated ns xs f degrees queue (update_dependents xs degrees queue)
  unfolding update_dependents
  update_dependents-Updated [] f degrees queue c known enough = record {
    degrees' = degrees;
    queue' = queue;
    returned = refl;
    counts = λ x k. c x k ∙ ap some (omega arith);
    queued = λ x. ground arith;
    work = omega arith;
  }
  update_dependents-Updated (x ∷ xs) f degrees queue c known enough =
      let known_x : contains x ns ≡ true = ground arith in
      let some_left : 1 ≤ f x = ground (arith, enough x, str_eq_self x) in
      let at_x : get x degrees ≡ some (suc (f x - 1)) = c x known_x ∙ ap some (omega arith) in
      let queue_x : List String = if (f x - 1) == 0 then queue ++ x ∷ [] else queue in
      let f' : String → ℕ = λ y. if str_eq x y then f y - 1 else f y in
      let rest =
        update_dependents-Updated xs f' (adjust x (λ d. d - 1) degrees) queue_x
          (Counts-adjust x degrees f known_x c) (ground arith) (λ y. ground (arith, enough y)) in
      rw (decrement-suc x degrees (f x - 1) at_x, update_dependents)
        (record {
          degrees' = rest.degrees';
          queue' = rest.queue';
          returned = rest.returned;
          counts = λ y k. rest.counts y k ∙ ap some (ground arith);
          queued = λ y. rest.queued y ∙ queued_step x y xs queue f (enough y);
          work = ground (
            arith,
            rest.work,
            total-adjust x degrees (f x - 1) at_x,
            length-append queue (x ∷ []),
          );
        })
