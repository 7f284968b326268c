-- ===== src/Mq/Dispatching.antt =====
-- Which handler dispatcher.rs finds, and how many results a batch has.
use flare_server_core.Prelude.{
  ℕ, suc, ◌≡◌, ◌⊎◌, inl, inr, refl, ap, ◌∙◌, true, ◌&&◌, Option, none, some, String, List, [], ◌∷◌,
  ◌++◌, All, length, all, get, insert, contains_key, get-insert, str_eq_self, sym, Result, ok, err,
  arith, Bool-cases, Option-cases,
}
use flare_server_core.Mq.Patterns.{Covers, matches_iff}
use flare_server_core.Mq.Types.{Message, MessageResult, ConsumerError}
use flare_server_core.Mq.Dispatcher.{
  Handler, Handlers, matches, find_wildcard, find_handler, register, already_registered,
  cons_result, or_nack, dispatch_each, dispatch_batch, is_named,
}

-- The first entry whose pattern covers the topic.
pub record First (topic : String) (hs : Handlers) (h : Handler) : Type 0 where
  pub before : Handlers
  pub pattern : String
  pub after : Handlers
  pub split : hs ≡ before ++ (pattern, h) ∷ after
  pub skipped : All (λ (e : String × Handler). ¬ Covers e.0 topic) before
  pub covers : Covers pattern topic

-- What a walk gives.
abbrev pub Walked : String → Handlers → Option Handler → Type 0
Walked topic hs none = All (λ (e : String × Handler). ¬ Covers e.0 topic) hs
Walked topic hs (some h) = First topic hs h

later :
    (topic p : String) (h : Handler) (hs : Handlers)
    → (¬ Covers p topic)
    → (o : Option Handler) → Walked topic hs o
    → Walked topic ((p, h) ∷ hs) o
later topic p h hs apart none rest = (apart, rest)
later topic p h hs apart (some k) f = record {
  before = (p, h) ∷ f.before;
  pattern = f.pattern;
  after = f.after;
  split = ap (λ es. (p, h) ∷ es) f.split;
  skipped = (apart, f.skipped);
  covers = f.covers;
}

find_wildcard-Walked : (topic : String) (hs : Handlers) → Walked topic hs (find_wildcard topic hs)
unfolding find_wildcard
find_wildcard-Walked topic [] = tt
find_wildcard-Walked topic ((p, h) ∷ hs) = elim (Bool-cases (matches topic p)) [
  | inl hit ↦ rw hit (record {
    before = [];
    pattern = p;
    after = hs;
    split = refl;
    skipped = tt;
    covers = (matches_iff topic p).0 hit;
  })
  | inr miss ↦ rw miss (
      later topic p h hs (λ c. absurd (let e = (matches_iff topic p).1 c in cc))
        (find_wildcard topic hs) (find_wildcard-Walked topic hs))
]

-- A handler by the topic itself, or else by the first pattern of the walk that covers the topic; or
-- no handler, where there is neither.
abbrev pub Found : (Handlers → Handlers) → Handlers → String → Option Handler → Type 0
Found iterate hs topic o =
    ((h : Handler) × (get topic hs ≡ some h) × (o ≡ some h))
    ⊎ ((get topic hs ≡ none) × Walked topic (iterate hs) o)

-- Which handler is found for a topic, in whatever order the map is walked: the one registered for the
-- topic itself; or else the first of the walk whose pattern is a beginning of the topic and a `*`; and
-- none where there is neither.
pub find_handler-Found :
    (iterate : Handlers → Handlers) (hs : Handlers) (topic : String)
    → Found iterate hs topic (find_handler iterate hs topic)
unfolding find_handler
find_handler-Found iterate hs topic = elim (Option-cases (get topic hs)) [
  | inl missing ↦ rw (find_handler, missing) (inr (refl, find_wildcard-Walked topic (iterate hs)))
  | inr (h, found) ↦ rw (find_handler, found) (inl (h, refl, refl))
]

-- A handler that is registered is found for its topic, and a second one for the topic is refused.
pub find_handler-register :
    (iterate : Handlers → Handlers) (hs hs' : Handlers) (topic : String) (h k : Handler)
    → register hs topic h ≡ ok hs'
    → (find_handler iterate hs' topic ≡ some h)
      × ((e : ConsumerError) × (register hs' topic k ≡ err e))
unfolding register find_handler
find_handler-register iterate hs hs' topic h k done = elim (Bool-cases (contains_key topic hs)) [
  | inl there ↦ absurd (let e : err _ ≡ ok hs' = rw (register, there) at done in cc)
  | inr free ↦
      let e : ok (insert topic h hs) ≡ ok hs' = rw (register, free) at done in
      let same : insert topic h hs ≡ hs' = cc in
      let found : get topic hs' ≡ some h =
        ap (get topic) (sym same) ∙ get-insert topic topic h hs ∙ rw (str_eq_self topic) refl in
      (rw (find_handler, found) refl, (already_registered topic, rw (register, found) refl))
]

cons_result-eq-ok :
    (r : MessageResult) (x : Result (List MessageResult) ConsumerError) (rs : List MessageResult)
    → cons_result r x ≡ ok rs
    → (rest : List MessageResult) × (x ≡ ok rest) × (length rs ≡ suc (length rest))
cons_result-eq-ok r (ok rest) rs e = (rest, refl, ground (arith, e))
cons_result-eq-ok r (err x) rs e = absurd (cc)

length-dispatch_each :
    (find : String → Option Handler) (call : ℕ) (ms : List Message) (rs : List MessageResult)
    → dispatch_each find call ms ≡ ok rs
    → length rs ≡ length ms
unfolding dispatch_each
length-dispatch_each find call [] rs e = ground arith
length-dispatch_each find call (m ∷ ms) rs e = elim (Option-cases (find m.context.topic)) [
  | inl missing ↦ absurd (let f : err _ ≡ ok rs = rw (dispatch_each, missing) at e in cc)
  | inr (h, found) ↦
      let f : cons_result (or_nack (h.handle call m)) (dispatch_each find (suc call) ms) ≡ ok rs =
        rw (dispatch_each, found) at e in
      let (rest, g, long) = cons_result-eq-ok _ _ rs f in
      long ∙ ap suc (length-dispatch_each find (suc call) ms rest g)
]

-- A batch that is dispatched has one result for each message, unless one handler that handles
-- batches itself takes all of them.
pub length-dispatch_batch :
    (find : String → Option Handler) (call : ℕ) (ms : List Message) (rs : List MessageResult)
    → dispatch_batch find call ms ≡ ok rs
    → (length rs ≡ length ms)
      ⊎ ((h : Handler) × (h.supports_batch ≡ true)
          × (all (λ (n : Message). is_named h.name (find n.context.topic)) ms ≡ true)
          × (h.handle_batch call ms ≡ ok rs))
unfolding dispatch_batch
length-dispatch_batch find call [] rs e = inl (ground arith)
length-dispatch_batch find call (m ∷ ms) rs e = elim (Option-cases (find m.context.topic)) [
  | inl missing ↦ absurd (let f : err _ ≡ ok rs = rw (dispatch_batch, missing) at e in cc)
  | inr (h, found) ↦
      let alone = all (λ (n : Message). is_named h.name (find n.context.topic)) (m ∷ ms) in
      elim (Bool-cases (alone && h.supports_batch)) [
        | inl whole ↦
            let f : h.handle_batch call (m ∷ ms) ≡ ok rs = rw (dispatch_batch, found, whole) at e in
            inr (h, ground (arith, whole), ground (arith, whole), f)
        | inr apart ↦
            let f : dispatch_each find call (m ∷ ms) ≡ ok rs =
              rw (dispatch_batch, found, apart) at e in
            inl (length-dispatch_each find call (m ∷ ms) rs f)
      ]
]
