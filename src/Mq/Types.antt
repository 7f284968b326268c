-- ===== src/Mq/Types.antt =====
-- flare-core-messaging/src/mq/consumer/types.rs: messages, results and errors. Times are parameters,
-- a payload is the list of its bytes, and an acknowledgement handle is a number.
use flare_server_core.Prelude.{
  ℕ, Bool, true, false, not, ◌&&◌, ◌||◌, Option, none, some, String, List, [], ◌∷◌, StringMap,
  insert, format, str_eq, if◌then◌else◌,
}
use flare_server_core.Prelude.Int.{ℤ, pos}

-- The request context `ctx` is passed on only, and is left out.
pub record MessageContext : Type 0 where
  pub message_id : String
  pub topic : String
  pub partition : ℤ
  pub offset : ℤ
  pub key : Option String
  pub headers : StringMap String
  pub started_at : ℕ
  pub retry_count : ℕ
  pub metadata : StringMap String

-- MessageContext::new, with the new identifier and the time
unfoldable pub new_context : (id : String) (now : ℕ) → String → MessageContext
new_context id now topic = record {
  message_id = id;
  topic = topic;
  partition = pos 0;
  offset = pos 0;
  key = none;
  headers = [];
  started_at = now;
  retry_count = 0;
  metadata = [];
}

-- MessageContext::with_key
unfoldable pub with_key : MessageContext → String → MessageContext
with_key c k = record c { key = some k }

-- MessageContext::with_header
unfoldable pub with_header : MessageContext → String → String → MessageContext
with_header c k v = record c { headers = insert k v c.headers }

-- MessageContext::with_metadata
unfoldable pub with_metadata : MessageContext → String → String → MessageContext
with_metadata c k v = record c { metadata = insert k v c.metadata }

pub data MessageResult : Type 0 where
  ack nack dead_letter : MessageResult

-- MessageResult::should_ack
unfoldable pub should_ack : MessageResult → Bool
should_ack ack = true
should_ack _ = false

pub data ConsumerError : Type 0 where
  handler_error serialization_error deserialization_error connection_error : String → ConsumerError
  timeout_error dlq_error retry_error : String → ConsumerError
  shutdown_requested : ConsumerError
  configuration_error idempotency_error no_handler : String → ConsumerError

-- ConsumerError::is_retryable
unfoldable pub is_retryable : ConsumerError → Bool
is_retryable (handler_error _) = true
is_retryable (connection_error _) = true
is_retryable (timeout_error _) = true
is_retryable (retry_error _) = true
is_retryable (idempotency_error _) = true
is_retryable _ = false

abbrev pub is_shutdown : ConsumerError → Bool
is_shutdown shutdown_requested = true
is_shutdown _ = false

-- ConsumerError::should_dead_letter
unfoldable pub should_dead_letter : ConsumerError → Bool
unfolding is_retryable
should_dead_letter e = not (is_retryable e) && not (is_shutdown e)

-- `to_string` of an error
abbrev pub display : ConsumerError → String
display (handler_error s) = format ("Handler error: " ∷ s ∷ [])
display (serialization_error s) = format ("Serialization error: " ∷ s ∷ [])
display (deserialization_error s) = format ("Deserialization error: " ∷ s ∷ [])
display (connection_error s) = format ("Connection error: " ∷ s ∷ [])
display (timeout_error s) = format ("Timeout error: " ∷ s ∷ [])
display (dlq_error s) = format ("DLQ error: " ∷ s ∷ [])
display (retry_error s) = format ("Retry error: " ∷ s ∷ [])
display shutdown_requested = "Shutdown requested"
display (configuration_error s) = format ("Configuration error: " ∷ s ∷ [])
display (idempotency_error s) = format ("Idempotency error: " ∷ s ∷ [])
display (no_handler s) = format ("No handler found for topic: " ∷ s ∷ [])

pub data ContentType : Type 0 where
  json protobuf avro raw : ContentType

-- The arms of `from_str`, on the text in lower case.
unfoldable pub from_lower : String → Option ContentType
from_lower s =
    if str_eq s "application/json" || str_eq s "json"
    then some json
    else if str_eq s "application/protobuf" || str_eq s "protobuf"
    then some protobuf
    else if str_eq s "application/avro" || str_eq s "avro"
    then some avro
    else if str_eq s "application/octet-stream" || str_eq s "raw"
    then some raw
    else none

-- ContentType::to_mime
unfoldable pub to_mime : ContentType → String
to_mime json = "application/json"
to_mime protobuf = "application/protobuf"
to_mime avro = "application/avro"
to_mime raw = "application/octet-stream"

pub record Message : Type 0 where
  pub payload : List ℕ
  pub content_type : ContentType
  pub context : MessageContext
  pub ack_handle : Option ℕ

-- Message::new
unfoldable pub new_message : List ℕ → ContentType → MessageContext → Message
new_message p t c = record { payload = p; content_type = t; context = c; ack_handle = none }

-- Message::with_ack_handle
unfoldable pub with_ack_handle : Message → ℕ → Message
with_ack_handle m h = record m { ack_handle = some h }
