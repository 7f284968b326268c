-- ===== src/Mq/Retries.antt =====
-- How the retries of failure.rs count, and where a retried message comes back.
use flare_server_core.Prelude.{
  ℕ, zero, suc, ◌+◌, ◌-◌, ◌<◌, ◌^◌, ◌≡◌, refl, ap, ◌∙◌, min, true, false, Option, none, some,
  String, List, [], ◌∷◌, ◌++◌, StringMap, get, insert, remove, get-insert, get-remove, contains_key,
  ltb, arith, Bool-cases, inl, inr, str_eq, Result, ok, err,
}
use flare_server_core.Prelude.Decimal.{to_string, parse-to_string, is_blank}
use flare_server_core.Mq.Types.{
  Message, MessageResult, ack, ConsumerError, retry_error, ContentType, to_mime,
}
use flare_server_core.Mq.Failure.{
  FailureAction, retry, dead_letter, FailureContext, RetryPolicy, action_for_nack,
  ProducerRetryPublisher, Send, forward, retry_send, forward_send, original_topic,
  retry_count_from_headers, header_retry_count, header_original_topic,
  header_retry_not_before_unix_ms, header_failure_error, failure_headers, insert_error,
  insert_content_type, not_before, saturating_add,
}

-- The headers that the failure path sets last leave the others alone.
get-not_before :
    (d : Option ℕ) (now : ℕ) (j : String) (h : StringMap String)
    → str_eq header_retry_not_before_unix_ms j ≡ false
    → get j (not_before d now h) ≡ get j h
unfolding not_before
get-not_before none now j h e = refl
get-not_before (some d) now j h e = get-insert header_retry_not_before_unix_ms j _ h ∙ rw e refl

get-insert_error :
    (o : Option String) (j : String) (h : StringMap String)
    → str_eq header_failure_error j ≡ false
    → get j (insert_error o h) ≡ get j h
unfolding insert_error
get-insert_error none j h e = refl
get-insert_error (some x) j h e = get-insert header_failure_error j x h ∙ rw e refl

get-insert_content_type :
    (t : ContentType) (j : String) (h : StringMap String)
    → str_eq "content-type" j ≡ false
    → get j (insert_content_type t h) ≡ get j h
unfolding insert_content_type
get-insert_content_type t j h e = elim (Bool-cases (contains_key "content-type" h)) [
  | inl there ↦ rw there refl
  | inr new ↦ rw new (get-insert "content-type" j (to_mime t) h ∙ rw e refl)
]

get-insert_ne :
    {V : Type 0} (k j : String) (v : V) (h : StringMap V)
    → str_eq k j ≡ false
    → get j (insert k v h) ≡ get j h
get-insert_ne k j v h e = get-insert k j v h ∙ rw e refl

get-failure_headers :
    (m : Message) (f : FailureContext) (n : ℕ)
    → (get header_retry_count (failure_headers m f n) ≡ some (to_string n))
      × (get header_original_topic (failure_headers m f n) ≡ some m.context.topic)
unfolding failure_headers
get-failure_headers m f n = (
  get-insert_content_type m.content_type header_retry_count _ refl
      ∙ get-insert_error f.error header_retry_count _ refl
      ∙ get-insert_ne _ header_retry_count _ _ refl
      ∙ get-insert_ne _ header_retry_count _ _ refl
      ∙ get-insert_ne _ header_retry_count _ _ refl
      ∙ get-insert_ne _ header_retry_count _ _ refl
      ∙ get-insert_ne _ header_retry_count _ _ refl
      ∙ get-insert header_retry_count header_retry_count (to_string n) _,
  get-insert_content_type m.content_type header_original_topic _ refl
      ∙ get-insert_error f.error header_original_topic _ refl
      ∙ get-insert_ne _ header_original_topic _ _ refl
      ∙ get-insert_ne _ header_original_topic _ _ refl
      ∙ get-insert_ne _ header_original_topic _ _ refl
      ∙ get-insert header_original_topic header_original_topic m.context.topic _,
)

get-retry_send :
    (p : ProducerRetryPublisher) (m : Message) (f : FailureContext) (now : ℕ)
    → let h = (retry_send p m f now).headers in
      (get header_retry_count h ≡ some (to_string (saturating_add 32 f.retry_count 1)))
      × (get header_original_topic h ≡ some m.context.topic)
unfolding retry_send
get-retry_send p m f now =
    let (count, topic) = get-failure_headers m f (saturating_add 32 f.retry_count 1) in
    (
      get-not_before p.not_before_delay now header_retry_count _ refl ∙ count,
      get-not_before p.not_before_delay now header_original_topic _ refl ∙ topic,
    )

-- The headers of a retry carry a count that is read back as one more than the count of the failure,
-- up to the largest `u32`.
pub retry_count-retry_send :
    (p : ProducerRetryPublisher) (m : Message) (f : FailureContext) (now : ℕ)
    → retry_count_from_headers (retry_send p m f now).headers ≡ min (f.retry_count + 1) (2 ^ 32 - 1)
unfolding retry_count_from_headers
retry_count-retry_send p m f now =
    let n = min (f.retry_count + 1) (2 ^ 32 - 1) in
    rw
      (
        retry_count_from_headers,
        (get-retry_send p m f now).0,
        parse-to_string (2 ^ 32) n (omega arith) (omega arith),
      )
      refl

retry_send_same :
    (p : ProducerRetryPublisher) (m : Message) (f : FailureContext) (now : ℕ)
    → ((retry_send p m f now).key ≡ m.context.key) × ((retry_send p m f now).payload ≡ m.payload)
unfolding retry_send
retry_send_same p m f now = (refl, refl)

count_kept :
    (h : StringMap String)
    → retry_count_from_headers (remove header_retry_not_before_unix_ms h)
      ≡ retry_count_from_headers h
unfolding retry_count_from_headers
count_kept h =
    rw (retry_count_from_headers, get-remove header_retry_not_before_unix_ms header_retry_count h)
      refl

original_topic-eq-some :
    (r : Message) (topic : String)
    → get header_original_topic r.context.headers ≡ some topic
    → is_blank topic ≡ false
    → original_topic r ≡ some topic
unfolding original_topic
original_topic-eq-some r topic e shown = rw (original_topic, e, shown) refl

-- What the forwarder's handler answers, by the answer of the producer.
abbrev pub forwarded : Result (Unit {0}) String → Result MessageResult ConsumerError
forwarded (ok u) = ok ack
forwarded (err e) = err (retry_error e)

-- A message that the retry publisher sent, and that the forwarder received with the same key,
-- payload and headers, is sent to the topic from which the retried message came, with its key
-- and payload, the increased count and without the time to wait for; the forwarder answers `Ack` where
-- the producer took it and a retryable error where it did not. The topic is not blank.
pub forward-retry :
    (p : ProducerRetryPublisher) (m r : Message) (f : FailureContext) (now : ℕ)
    → is_blank m.context.topic ≡ false
    → r.context.key ≡ (retry_send p m f now).key
    → r.payload ≡ (retry_send p m f now).payload
    → r.context.headers ≡ (retry_send p m f now).headers
    → (s : Send) × ((send : Send → Result (Unit {0}) String) → forward send r ≡ forwarded (send s))
      × (s.topic ≡ m.context.topic)
      × (s.key ≡ m.context.key)
      × (s.payload ≡ m.payload)
      × (retry_count_from_headers s.headers ≡ min (f.retry_count + 1) (2 ^ 32 - 1))
      × (get header_retry_not_before_unix_ms s.headers ≡ none)
unfolding forward forward_send
forward-retry p m r f now shown same_key same_payload same_headers =
    let h = (retry_send p m f now).headers in
    let topic =
      original_topic-eq-some r m.context.topic
        (ap (get header_original_topic) same_headers ∙ (get-retry_send p m f now).1) shown in
    (
      forward_send r m.context.topic,
      λ send. rw (forward, topic) (answered (send (forward_send r m.context.topic))),
      refl,
      same_key ∙ (retry_send_same p m f now).0,
      same_payload ∙ (retry_send_same p m f now).1,
      ap (λ x. retry_count_from_headers (remove header_retry_not_before_unix_ms x)) same_headers
          ∙ count_kept h
          ∙ retry_count-retry_send p m f now,
      get-remove header_retry_not_before_unix_ms header_retry_not_before_unix_ms r.context.headers,
    )
  where
    answered :
        (a : Result (Unit {0}) String)
        → (elim a [ err e ↦ err (retry_error e) | ok _ ↦ ok ack ]) ≡ forwarded a
    answered (ok u) = refl
    answered (err e) = refl

-- What the policy does with a message that its handler refuses again and again, from a count on:
-- each retry comes back with the count of its headers.
unfoldable pub refused_actions :
    (fuel : ℕ)
    → RetryPolicy
    → ProducerRetryPublisher
    → Message
    → (now count : ℕ) → List FailureAction
refused_actions zero policy p m now count = []
refused_actions (suc fuel) policy p m now count =
    let f : FailureContext = record {
      reason = "handler_nack";
      error = none;
      retry_count = count;
    } in
    let later =
      refused_actions fuel policy p m now
        (retry_count_from_headers (retry_send p m f now).headers) in
    elim (action_for_nack policy count) [ retry ↦ retry ∷ later | dead_letter ↦ dead_letter ∷ [] ]

abbrev pub replicate {ℓ} : {A : Type ℓ} → ℕ → A → List A
replicate zero x = []
replicate (suc n) x = x ∷ replicate n x

refused_actions_retry :
    (policy : RetryPolicy) (p : ProducerRetryPublisher) (m : Message) (now fuel count : ℕ)
    → ltb count policy.max_retries ≡ true
    → count + 1 < 2 ^ 32
    → refused_actions (suc fuel) policy p m now count
      ≡ retry ∷ refused_actions fuel policy p m now (count + 1)
unfolding refused_actions action_for_nack
refused_actions_retry policy p m now fuel count under small =
    let f : FailureContext = record {
      reason = "handler_nack";
      error = none;
      retry_count = count;
    } in
    let next : retry_count_from_headers (retry_send p m f now).headers ≡ count + 1 =
      retry_count-retry_send p m f now ∙ omega arith in
    opened ∙ ap (λ c. retry ∷ refused_actions fuel policy p m now c) next
  where
    opened :
        refused_actions (suc fuel) policy p m now count
        ≡ retry
          ∷ refused_actions fuel policy p m now (
              retry_count_from_headers
                (retry_send p m
                  (record { reason = "handler_nack"; error = none; retry_count = count })
                  now).headers)
    opened = rw (refused_actions, under) refl

-- With a dead-letter queue, a message that its handler always refuses is retried as often as the
-- policy says, less the retries it already had, and then goes to that queue.
pub refused_actions-dlq :
    (policy : RetryPolicy) (p : ProducerRetryPublisher) (m : Message) (now left count : ℕ)
    → policy.enable_dlq ≡ true
    → policy.max_retries < 2 ^ 32
    → count + left ≡ policy.max_retries
    → refused_actions (suc left) policy p m now count ≡ replicate left retry ++ dead_letter ∷ []
unfolding refused_actions action_for_nack
refused_actions-dlq policy p m now zero count dlq small e =
    let over : ltb count policy.max_retries ≡ false = ground arith in
    rw (refused_actions, over, dlq) refl
refused_actions-dlq policy p m now (suc left) count dlq small e =
    refused_actions_retry policy p m now (suc left) count (ground arith) (omega arith)
    ∙ ap (λ l. retry ∷ l)
        (refused_actions-dlq policy p m now left (count + 1) dlq small (omega arith))
