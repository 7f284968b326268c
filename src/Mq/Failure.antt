-- ===== src/Mq/Failure.antt =====
-- flare-core-messaging/src/mq/consumer/failure.rs: what becomes of a message that failed. The
-- clock's time is a parameter, and sending is `send`, which the producer answers.
use flare_server_core.Prelude.{
  ℕ, ◌+◌, ◌-◌, ◌%◌, ◌^◌, min, Bool, not, Option, none, some, String, List, [], ◌∷◌, StringMap, get,
  insert, remove, contains_key, unwrap_or, format, ltb, if◌then◌else◌, Result, ok, err,
}
use flare_server_core.Prelude.Decimal.{to_string, parse, is_blank}
use flare_server_core.Prelude.Int.{ℤ, pos, negsuc}
use flare_server_core.Mq.Types.{
  Message, MessageResult, ack, ConsumerError, retry_error, dlq_error, is_retryable, display,
  ContentType, to_mime,
}

abbrev pub header_retry_count : String
header_retry_count = "x-flare-retry-count"

abbrev pub header_failure_reason : String
header_failure_reason = "x-flare-failure-reason"

abbrev pub header_failure_error : String
header_failure_error = "x-flare-failure-error"

abbrev pub header_original_topic : String
header_original_topic = "x-flare-original-topic"

abbrev pub header_original_message_id : String
header_original_message_id = "x-flare-original-message-id"

abbrev pub header_original_partition : String
header_original_partition = "x-flare-original-partition"

abbrev pub header_original_offset : String
header_original_offset = "x-flare-original-offset"

abbrev pub header_retry_not_before_unix_ms : String
header_retry_not_before_unix_ms = "x-flare-retry-not-before-unix-ms"

pub data FailureAction : Type 0 where
  retry dead_letter : FailureAction

pub record FailureContext : Type 0 where
  pub reason : String
  pub error : Option String
  pub retry_count : ℕ

-- FailureContext::from_error
unfoldable pub from_error : String → ConsumerError → ℕ → FailureContext
from_error reason e n = record { reason = reason; error = some (display e); retry_count = n }

pub record RetryPolicy : Type 0 where
  pub max_retries : ℕ
  pub enable_dlq : Bool

-- RetryPolicy::retry_or_dead_letter
unfoldable pub retry_or_dead_letter : RetryPolicy → ℕ → FailureAction
retry_or_dead_letter p n =
    if ltb n p.max_retries then retry else if p.enable_dlq then dead_letter else retry

-- RetryPolicy::action_for_nack
unfoldable pub action_for_nack : RetryPolicy → ℕ → FailureAction
unfolding retry_or_dead_letter
action_for_nack p n = retry_or_dead_letter p n

-- RetryPolicy::action_for_dead_letter
unfoldable pub action_for_dead_letter : RetryPolicy → FailureAction
action_for_dead_letter p = if p.enable_dlq then dead_letter else retry

-- RetryPolicy::action_for_error
unfoldable pub action_for_error : RetryPolicy → ConsumerError → ℕ → FailureAction
unfolding retry_or_dead_letter is_retryable
action_for_error p e n =
    if is_retryable e then retry_or_dead_letter p n else if p.enable_dlq then dead_letter else retry

pub data FailureTopic : Type 0 where
  original : FailureTopic
  fixed suffix : String → FailureTopic

-- FailureTopic::resolve
unfoldable pub resolve : FailureTopic → String → String
resolve original topic = topic
resolve (fixed t) topic = t
resolve (suffix s) topic = format (topic ∷ s ∷ [])

-- `to_string` of a signed integer
abbrev pub signed_to_string : ℤ → String
signed_to_string (pos n) = to_string n
signed_to_string (negsuc n) = format ("-" ∷ to_string (n + 1) ∷ [])

unfoldable pub insert_error : Option String → StringMap String → StringMap String
insert_error none h = h
insert_error (some e) h = insert header_failure_error e h

-- `entry("content-type").or_insert_with(..)`
unfoldable pub insert_content_type : ContentType → StringMap String → StringMap String
unfolding to_mime
insert_content_type t h =
    if contains_key "content-type" h then h else insert "content-type" (to_mime t) h

-- failure_headers
unfoldable pub failure_headers : Message → FailureContext → ℕ → StringMap String
failure_headers m f n = insert_content_type m.content_type (
    insert_error f.error (
      insert header_original_offset (signed_to_string m.context.offset) (
        insert header_original_partition (signed_to_string m.context.partition) (
          insert header_original_message_id m.context.message_id (
            insert header_original_topic m.context.topic (
              insert header_failure_reason f.reason
                (insert header_retry_count (to_string n) m.context.headers)))))))

-- retry_count_from_headers
unfoldable pub retry_count_from_headers : StringMap String → ℕ
retry_count_from_headers h = elim (get header_retry_count h) [
  | none ↦ 0
  | some value ↦ unwrap_or 0 (parse (2 ^ 32) value)
]

-- `saturating_add` of integers of so many bits
abbrev pub saturating_add : (bits a b : ℕ) → ℕ
saturating_add bits a b = min (a + b) (2 ^ bits - 1)

-- What a producer is asked to send.
pub record Send : Type 0 where
  pub topic : String
  pub key : Option String
  pub payload : List ℕ
  pub headers : StringMap String

pub record ProducerRetryPublisher : Type 0 where
  pub topic : FailureTopic
  -- in milliseconds, as `as_millis` gives it
  pub not_before_delay : Option ℕ

unfoldable pub not_before : Option ℕ → (now : ℕ) → StringMap String → StringMap String
not_before none now h = h
not_before (some delay) now h =
    insert header_retry_not_before_unix_ms (to_string (saturating_add 64 now (delay % 2 ^ 64))) h

-- ProducerRetryPublisher::publish_retry, what it sends
unfoldable pub retry_send : ProducerRetryPublisher → Message → FailureContext → (now : ℕ) → Send
retry_send p m f now = record {
  topic = resolve p.topic m.context.topic;
  key = m.context.key;
  payload = m.payload;
  headers =
      not_before p.not_before_delay now (failure_headers m f (saturating_add 32 f.retry_count 1));
}

-- ProducerDeadLetterPublisher::publish_dead_letter, what it sends
unfoldable pub dead_letter_send : FailureTopic → Message → FailureContext → Send
dead_letter_send t m f = record {
  topic = resolve t m.context.topic;
  key = m.context.key;
  payload = m.payload;
  headers = failure_headers m f f.retry_count;
}

-- `map_err` on the answer of the producer
abbrev pub map_send :
    (String → ConsumerError) → Result (Unit {0}) String → Result (Unit {0}) ConsumerError
map_send f (ok u) = ok u
map_send f (err e) = err (f e)

-- ProducerRetryPublisher::publish_retry
unfoldable pub publish_retry :
    (Send → Result (Unit {0}) String)
    → ProducerRetryPublisher
    → Message
    → FailureContext
    → (now : ℕ) → Result (Unit {0}) ConsumerError
unfolding retry_send
publish_retry send p m f now = map_send retry_error (send (retry_send p m f now))

-- ProducerDeadLetterPublisher::publish_dead_letter
unfoldable pub publish_dead_letter :
    (Send → Result (Unit {0}) String)
    → FailureTopic
    → Message
    → FailureContext
    → Result (Unit {0}) ConsumerError
unfolding dead_letter_send
publish_dead_letter send t m f = map_send dlq_error (send (dead_letter_send t m f))

-- RetryForwarderHandler::wait_until_not_before: how many milliseconds it sleeps
unfoldable pub wait_until_not_before : Message → (now : ℕ) → ℕ
wait_until_not_before m now = elim (get header_retry_not_before_unix_ms m.context.headers) [
  | none ↦ 0
  | some value ↦ elim (parse (2 ^ 64) value) [
    | none ↦ 0
    | some t ↦ if ltb now t then t - now else 0
  ]
]

-- The header with the original topic, unless it is blank.
unfoldable pub original_topic : Message → Option String
original_topic m = elim (get header_original_topic m.context.headers) [
  | none ↦ none
  | some topic ↦ if not (is_blank topic) then some topic else none
]

-- What the forwarder sends to the original topic.
unfoldable pub forward_send : Message → String → Send
forward_send m topic = record {
  topic = topic;
  key = m.context.key;
  payload = m.payload;
  headers = remove header_retry_not_before_unix_ms m.context.headers;
}

-- RetryForwarderHandler::handle
unfoldable pub forward :
    (Send → Result (Unit {0}) String) → Message → Result MessageResult ConsumerError
unfolding original_topic forward_send
forward send m = elim (original_topic m) [
  | none ↦ err (
      dlq_error (
        format
          ("retry message " ∷ m.context.message_id ∷ " missing " ∷ header_original_topic ∷ [])))
  | some topic ↦ elim (send (forward_send m topic)) [ err e ↦ err (retry_error e) | ok _ ↦ ok ack ]
]
