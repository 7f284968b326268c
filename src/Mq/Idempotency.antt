-- ===== src/Mq/Idempotency.antt =====
-- The store of consumed keys of runtime.rs, and messages that come twice.
use flare_server_core.Prelude.{
  ℕ, ◌+◌, ◌≡◌, refl, ap, ◌∙◌, Bool, true, false, Option, none, some, String, List, [], ◌∷◌, ◌++◌,
  contains, contains-append, str_eq_self, arith, Result, ok,
}
use flare_server_core.Mq.Types.{Message, ack, ConsumerError}
use flare_server_core.Mq.Effects.{Effect, acked, checked, recorded, dispatched, Outside, Parts}
use flare_server_core.Mq.Consumer.{
  idempotency_key, is_duplicate, record_consumed, on_handle, process_message, process_dispatched,
  process_result,
}

-- InMemoryIdempotencyStore: the set of the keys recorded so far
abbrev pub recorded_keys : List Effect → List String
recorded_keys [] = []
recorded_keys (recorded k ∷ es) = k ∷ recorded_keys es
recorded_keys (_ ∷ es) = recorded_keys es

-- InMemoryIdempotencyStore::is_consumed
unfoldable pub in_memory_is_consumed : List Effect → String → Result Bool ConsumerError
in_memory_is_consumed log k = ok (contains k (recorded_keys log))

-- How often a message was given to the dispatcher.
abbrev pub dispatches : List Effect → ℕ
dispatches [] = 0
dispatches (dispatched m ∷ es) = 1 + dispatches es
dispatches (_ ∷ es) = dispatches es

recorded_keys-append :
    (xs ys : List Effect) → recorded_keys (xs ++ ys) ≡ recorded_keys xs ++ recorded_keys ys
recorded_keys-append [] ys = refl
recorded_keys-append (recorded k ∷ xs) ys = ap (λ l. k ∷ l) (recorded_keys-append xs ys)
recorded_keys-append (_ ∷ xs) ys = recorded_keys-append xs ys

dispatches-append : (xs ys : List Effect) → dispatches (xs ++ ys) ≡ dispatches xs + dispatches ys
dispatches-append [] ys = omega arith
dispatches-append (dispatched m ∷ xs) ys = omega (arith, dispatches-append xs ys)
dispatches-append (_ ∷ xs) ys = dispatches-append xs ys

on_handle-dispatches :
    (o : Outside) (h : Option ℕ) (log : List Effect)
    → dispatches (on_handle o acked h log).1 ≡ dispatches log
unfolding on_handle
on_handle-dispatches o none log = refl
on_handle-dispatches o (some h) log = omega (arith, dispatches-append log (acked h ∷ []))

-- A message whose key the store has is not dispatched.
process_message_duplicate :
    (o : Outside) (parts : Parts) (m : Message) (log : List Effect)
    → parts.idempotency_store ≡ true
    → o.is_consumed log (idempotency_key m) ≡ ok true
    → dispatches (process_message o parts m log).1 ≡ dispatches log
unfolding process_message is_duplicate
process_message_duplicate o parts m log on known =
    let log1 = log ++ checked (idempotency_key m) ∷ [] in
    rw (process_message, on, known)
      (on_handle-dispatches o m.ack_handle log1
        ∙ omega (arith, dispatches-append log (checked (idempotency_key m) ∷ [])))

on_handle-recorded_keys :
    (x : String) (o : Outside) (h : Option ℕ) (log : List Effect)
    → contains x (recorded_keys (on_handle o acked h log).1) ≡ contains x (recorded_keys log)
unfolding on_handle
on_handle-recorded_keys x o none log = refl
on_handle-recorded_keys x o (some h) log =
    ap (contains x) (recorded_keys-append log (acked h ∷ []))
    ∙ contains-append x (recorded_keys log) []
    ∙ ground arith

-- The calls of a message that is new and acknowledged by its handler.
abbrev pub first_calls : List Effect → Message → List Effect
first_calls log m =
    ((log ++ checked (idempotency_key m) ∷ []) ++ dispatched m ∷ [])
    ++ recorded (idempotency_key m) ∷ []

process_message_new :
    (o : Outside) (parts : Parts) (m : Message) (log : List Effect)
    → parts.idempotency_store ≡ true
    → o.is_consumed log (idempotency_key m) ≡ ok false
    → o.dispatch (log ++ checked (idempotency_key m) ∷ []) m ≡ ok ack
    → o.answer
        ((log ++ checked (idempotency_key m) ∷ []) ++ dispatched m ∷ [])
        (recorded (idempotency_key m))
      ≡ ok tt
    → process_message o parts m log ≡ on_handle o acked m.ack_handle (first_calls log m)
unfolding process_message is_duplicate process_dispatched process_result record_consumed
process_message_new o parts m log on new acks stored =
    rw
      (
        process_message, on, new, acks, process_dispatched, process_result, record_consumed, on,
        stored,
      )
      refl

first_calls-recorded :
    (log : List Effect) (m : Message)
    → contains (idempotency_key m) (recorded_keys (first_calls log m)) ≡ true
first_calls-recorded log m =
    let k = idempotency_key m in
    let before = (log ++ checked k ∷ []) ++ dispatched m ∷ [] in
    ap (contains k) (recorded_keys-append before (recorded k ∷ []))
    ∙ contains-append k (recorded_keys before) (k ∷ [])
    ∙ ground (arith, str_eq_self k)

first_calls-dispatches :
    (log : List Effect) (m : Message) → dispatches (first_calls log m) ≡ dispatches log + 1
first_calls-dispatches log m =
    let k = idempotency_key m in
    omega (
      arith,
      dispatches-append ((log ++ checked k ∷ []) ++ dispatched m ∷ []) (recorded k ∷ []),
      dispatches-append (log ++ checked k ∷ []) (dispatched m ∷ []),
      dispatches-append log (checked k ∷ []),
    )

-- With the store in memory, of two messages with one key that was not consumed before, the first of
-- which its handler acknowledges, one is dispatched: the second is not, whatever becomes of the
-- acknowledgement of the first.
pub process_message_once :
    (o : Outside) (parts : Parts) (m m' : Message) (log : List Effect)
    → parts.idempotency_store ≡ true
    → ((l : List Effect) (k : String) → o.is_consumed l k ≡ in_memory_is_consumed l k)
    → ((l : List Effect) (k : String) → o.answer l (recorded k) ≡ ok tt)
    → idempotency_key m' ≡ idempotency_key m
    → contains (idempotency_key m) (recorded_keys log) ≡ false
    → o.dispatch (log ++ checked (idempotency_key m) ∷ []) m ≡ ok ack
    → dispatches (process_message o parts m' (process_message o parts m log).1).1
      ≡ dispatches log + 1
unfolding in_memory_is_consumed
process_message_once o parts m m' log on store answers same new acks =
    let k = idempotency_key m in
    let first : process_message o parts m log ≡ on_handle o acked m.ack_handle (first_calls log m) =
      process_message_new o parts m log on (store log k ∙ ap ok new) acks (answers _ k) in
    let l = (on_handle o acked m.ack_handle (first_calls log m)).1 in
    let known : contains (idempotency_key m') (recorded_keys l) ≡ true =
      ap (λ x. contains x (recorded_keys l)) same
      ∙ on_handle-recorded_keys k o m.ack_handle (first_calls log m)
      ∙ first_calls-recorded log m in
    ap (λ x. dispatches (process_message o parts m' x.1).1) first
    ∙ process_message_duplicate o parts m' l on (store l (idempotency_key m') ∙ ap ok known)
    ∙ on_handle-dispatches o m.ack_handle (first_calls log m)
    ∙ first_calls-dispatches log m
