-- ===== src/Mq/Ordered.antt =====
-- flare-core-messaging/src/mq/consumer/runtime.rs: the groups of `process_ordered_batch`, and what
-- `fetch_batch` puts into a batch.
use mathlib.Core.List.{append-nil, append_assoc}
use flare_server_core.Prelude.{
  ℕ, zero, suc, ◌-◌, ◌≤◌, ◌<◌, ◌≡◌, refl, sym, ap, ◌∙◌, max, Bool, false, Option, none, some,
  String, List, [], ◌∷◌, ◌++◌, length, filter, StringMap, get, insert, unwrap_or, contains_key,
  get-insert, str_eq, str_eq_iff, if◌then◌else◌, leb, Result, ok, err, arith, Bool-cases, inl, inr,
}
use flare_server_core.Mq.Types.{Message, ConsumerError}
use flare_server_core.Mq.Consumer.{ordered_key}

pub record Groups : Type 0 where
  pub keys : List String
  pub groups : StringMap (List Message)

-- One message goes behind the others of its key.
unfoldable pub add_to_group : Groups → Message → Groups
add_to_group g m =
    let key = ordered_key m in
    record {
      keys = if contains_key key g.groups then g.keys else g.keys ++ key ∷ [];
      groups = insert key (unwrap_or [] (get key g.groups) ++ m ∷ []) g.groups;
    }

unfoldable pub group_from : Groups → List Message → Groups
group_from g [] = g
group_from g (m ∷ ms) = group_from (add_to_group g m) ms

-- The first loop of process_ordered_batch
unfoldable pub group_messages : List Message → Groups
unfolding group_from
group_messages ms = group_from (record { keys = []; groups = [] }) ms

abbrev pub has_key : String → Message → Bool
has_key k m = str_eq (ordered_key m) k

abbrev pub group_of : String → Groups → List Message
group_of k g = unwrap_or [] (get k g.groups)

add_to_group_lem :
    (k : String) (g : Groups) (m : Message)
    → group_of k (add_to_group g m) ≡ group_of k g ++ filter (has_key k) (m ∷ [])
unfolding add_to_group
add_to_group_lem k g m = elim (Bool-cases (str_eq (ordered_key m) k)) [
  | inl hit ↦
      let same : ordered_key m ≡ k = (str_eq_iff (ordered_key m) k).0 hit in
      rw
        (
          get-insert (ordered_key m) k (unwrap_or [] (get (ordered_key m) g.groups) ++ m ∷ [])
              g.groups,
          hit,
          same,
        )
        refl
  | inr miss ↦
      rw
        (
          get-insert (ordered_key m) k (unwrap_or [] (get (ordered_key m) g.groups) ++ m ∷ [])
              g.groups,
          miss,
        )
        (sym (append-nil (group_of k g)))
]

group_from_lem :
    (k : String) (g : Groups) (ms : List Message)
    → group_of k (group_from g ms) ≡ group_of k g ++ filter (has_key k) ms
unfolding group_from
group_from_lem k g [] = sym (append-nil (group_of k g))
group_from_lem k g (m ∷ ms) =
    group_from_lem k (add_to_group g m) ms
    ∙ ap (λ l. l ++ filter (has_key k) ms) (add_to_group_lem k g m)
    ∙ append_assoc (group_of k g) (filter (has_key k) (m ∷ [])) (filter (has_key k) ms)
    ∙ ap (λ l. group_of k g ++ l) joined
  where
    joined : filter (has_key k) (m ∷ []) ++ filter (has_key k) ms ≡ filter (has_key k) (m ∷ ms)
    joined = elim (Bool-cases (has_key k m)) [ inl hit ↦ rw hit refl | inr miss ↦ rw miss refl ]

-- The group of a key has the messages of this key and no others, in the order of the batch.
pub group_messages_lem :
    (k : String) (ms : List Message) → group_of k (group_messages ms) ≡ filter (has_key k) ms
unfolding group_messages get
group_messages_lem k ms = group_from_lem k (record { keys = []; groups = [] }) ms

-- What a fetch gives while a batch is filled, the end of the time included.
pub data Fetched : Type 0 where
  fetched : Message → Fetched
  nothing timed_out : Fetched
  fetch_failed : ConsumerError → Fetched

-- The loop of fetch_batch, with the room that is left; the list of fetches that are over.
unfoldable pub fetch_more :
    (room : ℕ) → List Fetched → List Message → Option (Result (List Message) ConsumerError)
fetch_more zero events messages = some (ok messages)
fetch_more (suc room) [] messages = none
fetch_more (suc room) (fetched m ∷ events) messages = fetch_more room events (messages ++ m ∷ [])
fetch_more (suc room) (nothing ∷ events) messages = some (ok messages)
fetch_more (suc room) (timed_out ∷ events) messages = some (ok messages)
fetch_more (suc room) (fetch_failed e ∷ events) messages = some (err e)

-- ConsumerRuntime::fetch_batch
unfoldable pub fetch_batch :
    Message → (batch_size : ℕ) → List Fetched → Option (Result (List Message) ConsumerError)
fetch_batch first batch_size events =
    if leb batch_size 1
    then some (ok (first ∷ []))
    else fetch_more (batch_size - 1) events (first ∷ [])

abbrev pub take {ℓ} : {A : Type ℓ} → ℕ → List A → List A
take zero xs = []
take (suc n) [] = []
take (suc n) (x ∷ xs) = x ∷ take n xs

-- The messages that come before anything else.
abbrev pub fetched_first : List Fetched → List Message
fetched_first (fetched m ∷ events) = m ∷ fetched_first events
fetched_first _ = []

fetch_more_lem :
    (room : ℕ) (events : List Fetched) (acc ms : List Message)
    → fetch_more room events acc ≡ some (ok ms)
    → ms ≡ acc ++ take room (fetched_first events)
unfolding fetch_more
fetch_more_lem zero events acc ms e = let same : acc ≡ ms = cc in sym same ∙ sym (append-nil acc)
fetch_more_lem (suc room) [] acc ms e = absurd (cc)
fetch_more_lem (suc room) (fetched m ∷ events) acc ms e =
    fetch_more_lem room events (acc ++ m ∷ []) ms e
    ∙ append_assoc acc (m ∷ []) (take room (fetched_first events))
fetch_more_lem (suc room) (nothing ∷ events) acc ms e =
    let same : acc ≡ ms = cc in sym same ∙ sym (append-nil acc)
fetch_more_lem (suc room) (timed_out ∷ events) acc ms e =
    let same : acc ≡ ms = cc in sym same ∙ sym (append-nil acc)
fetch_more_lem (suc room) (fetch_failed x ∷ events) acc ms e = absurd (cc)

length-take : {A : Type 0} (n : ℕ) (xs : List A) → length (take n xs) ≤ n
length-take zero xs = omega arith
length-take (suc n) [] = omega arith
length-take (suc n) (x ∷ xs) = omega (arith, length-take n xs)

-- A batch that is returned is the first message, and then the messages that were fetched before the
-- first empty fetch or the end of the time, in their order, as many as the batch has room for: at
-- most `batch_size` messages in all, and one where this is 0.
pub fetch_batch_lem :
    (first : Message) (batch_size : ℕ) (events : List Fetched) (ms : List Message)
    → fetch_batch first batch_size events ≡ some (ok ms)
    → (ms ≡ first ∷ take (batch_size - 1) (fetched_first events)) × (length ms ≤ max 1 batch_size)
unfolding fetch_batch
fetch_batch_lem first batch_size events ms e = elim (Bool-cases (leb batch_size 1)) [
  | inl single ↦
      let f : some (ok (first ∷ [])) ≡ some (ok ms) = rw (fetch_batch, single) at e in
      let same : first ∷ [] ≡ ms = cc in
      let none_left : batch_size - 1 ≡ 0 = ground arith in
      (sym same ∙ rw none_left refl, ground (arith, ap length same))
  | inr several ↦
      let f : fetch_more (batch_size - 1) events (first ∷ []) ≡ some (ok ms) =
        rw (fetch_batch, several) at e in
      let same = fetch_more_lem (batch_size - 1) events (first ∷ []) ms f in
      (
        same,
        omega (
          arith,
          ap length same,
          length-take (batch_size - 1) (fetched_first events),
          leb_false several,
        ),
      )
]
  where
    leb_false : leb batch_size 1 ≡ false → 1 < batch_size
    leb_false h = ground arith
