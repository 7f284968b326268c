-- ===== src/Mq/Samples.antt =====
-- A message, its neighbours, and what the consumer does with them.
use flare_server_core.Prelude.{
  ℕ, Result, ◌≤◌, max, filter, ◌+◌, ◌-◌, ◌^◌, ◌≡◌, refl, min, true, false, Option, none, some,
  String, List, [], ◌∷◌, ◌++◌, length, map, get, ok, arith,
}
use flare_server_core.Prelude.Decimal.{is_blank, ends_with_star}
use flare_server_core.Prelude.Int.{pos}
use flare_server_core.Mq.Types.{Message, MessageContext, MessageResult, ack, raw}
use flare_server_core.Mq.Failure.{
  FailureAction, retry, FailureContext, RetryPolicy, ProducerRetryPublisher, fixed, retry_send,
  Send, forward, retry_count_from_headers, header_retry_not_before_unix_ms,
}
use flare_server_core.Mq.Retries.{
  forwarded, forward-retry, refused_actions, replicate, refused_actions-dlq,
}
use flare_server_core.Mq.Dispatcher.{Handler, Handlers, find_handler}
use flare_server_core.Mq.Dispatching.{Found, find_handler-Found}
use flare_server_core.Mq.Ordered.{
  Fetched, fetched, timed_out, take, fetched_first, fetch_batch, fetch_more, fetch_batch_lem,
  group_messages, group_of, has_key, group_messages_lem,
}
use flare_server_core.Mq.Effects.{Outside, Parts}
use flare_server_core.Mq.Consumer.{process_message, process_batch}
use flare_server_core.Mq.Idempotency.{in_memory_is_consumed, dispatches, process_message_once}
use flare_server_core.Mq.Settled.{every, only, settled, After, debt, process_message_settled}
use flare_server_core.Mq.Batches.{message_debts, process_batch_settled}

abbrev context : MessageContext
context = record {
  message_id = "m-1";
  topic = "orders";
  partition = pos 0;
  offset = pos 12;
  key = some "k";
  headers = [];
  started_at = 0;
  retry_count = 0;
  metadata = [];
}

abbrev message : Message
message = record {
  payload = 1 ∷ 2 ∷ [];
  content_type = raw;
  context = context;
  ack_handle = some 7;
}

abbrev publisher : ProducerRetryPublisher
publisher = record { topic = fixed "retry.5s"; not_before_delay = some 5000 }

abbrev failure : FailureContext
failure = record { reason = "handler_nack"; error = none; retry_count = 2 }

-- The retry of the message, as the forwarder receives it.
abbrev retried_message : Message
retried_message = record message {
  context = record context {
    topic = "retry.5s";
    headers = (retry_send publisher message failure 100).headers;
  };
  ack_handle = some 8;
}

abbrev policy : RetryPolicy
policy = record { max_retries = 3; enable_dlq = true }

forward-retry_example :
    (s : Send) × ((send : Send → Result (Unit {0}) String)
      → forward send retried_message ≡ forwarded (send s))
    × (s.topic ≡ "orders")
    × (s.key ≡ some "k")
    × (s.payload ≡ 1 ∷ 2 ∷ [])
    × (retry_count_from_headers s.headers ≡ min (2 + 1) (2 ^ 32 - 1))
    × (get header_retry_not_before_unix_ms s.headers ≡ none)
unfolding retry_send is_blank
forward-retry_example =
    forward-retry publisher message retried_message failure 100 refl refl refl refl

refused_actions-dlq_example :
    refused_actions 3 policy publisher message 100 1
    ≡ replicate 2 retry ++ FailureAction.dead_letter ∷ []
refused_actions-dlq_example =
    refused_actions-dlq policy publisher message 100 2 1 refl (omega arith) refl

abbrev acks : List Message → List MessageResult
acks ms = map (λ _. ack) ms

-- Everyone else answers with a success, and the store is the one in memory.
abbrev outside : Outside
outside = record {
  answer = λ log e. ok tt;
  is_consumed = in_memory_is_consumed;
  dispatch = λ log m. ok ack;
  dispatch_batch = λ log ms. ok (acks ms);
  supports_native_retry = λ h. true;
}

abbrev parts : Parts
parts = record {
  retry_policy = policy;
  retry_publisher = true;
  dead_letter_publisher = true;
  idempotency_store = true;
}

process_message_settled_example :
    let x = process_message outside parts message [] in
    After every (settled every []) (debt every (some 7)) (λ _. 0) x.0 x.1
    × ((i : ℕ) → After (only i) (settled (only i) []) (debt (only i) (some 7)) (λ _. 0) x.0 x.1)
process_message_settled_example = process_message_settled outside parts message []

process_batch_settled_example :
    let ms = message ∷ retried_message ∷ [] in
    let x = process_batch outside parts ms [] in
    After every (settled every []) (message_debts every ms) (λ _. 0) x.0 x.1
    × ((i : ℕ) → After (only i) (settled (only i) []) (message_debts (only i) ms) (λ _. 0) x.0 x.1)
process_batch_settled_example =
    process_batch_settled outside parts (message ∷ retried_message ∷ []) []

process_message_once_example :
    dispatches
      (process_message outside parts message (process_message outside parts message []).1).1
    ≡ dispatches [] + 1
process_message_once_example =
    process_message_once outside parts message message [] refl (λ l k. refl) (λ l k. refl) refl refl
      refl

abbrev handler : Handler
handler = record {
  name = "orders-handler";
  supports_batch = false;
  handle = λ call m. ok ack;
  handle_batch = λ call ms. ok (acks ms);
}

abbrev handlers : Handlers
handlers = ("orders", handler) ∷ []

-- A topic that only a pattern covers.
found_by_pattern :
    find_handler (λ hs. hs) (("payments.*", handler) ∷ handlers) "payments.eu" ≡ some handler
unfolding find_handler get ends_with_star
found_by_pattern = refl

find_handler-Found_example :
    Found
      (λ hs. hs)
      (("payments.*", handler) ∷ handlers)
      "payments.eu"
      (find_handler (λ hs. hs) (("payments.*", handler) ∷ handlers) "payments.eu")
find_handler-Found_example =
    find_handler-Found (λ hs. hs) (("payments.*", handler) ∷ handlers) "payments.eu"

abbrev find : String → Option Handler
find topic = get topic handlers

abbrev unkeyed : Message
unkeyed = record message { context = record context { key = none } }

group_messages_lem_example :
    group_of "k" (group_messages (message ∷ unkeyed ∷ retried_message ∷ []))
    ≡ filter (has_key "k") (message ∷ unkeyed ∷ retried_message ∷ [])
group_messages_lem_example = group_messages_lem "k" (message ∷ unkeyed ∷ retried_message ∷ [])

abbrev fetches : List Fetched
fetches = fetched unkeyed ∷ timed_out ∷ fetched message ∷ []

fetch_batch_lem_example :
    (message ∷ unkeyed ∷ [] ≡ message ∷ take (5 - 1) (fetched_first fetches))
    × (length (message ∷ unkeyed ∷ []) ≤ max 1 5)
unfolding fetch_batch fetch_more
fetch_batch_lem_example = fetch_batch_lem message 5 fetches (message ∷ unkeyed ∷ []) refl
