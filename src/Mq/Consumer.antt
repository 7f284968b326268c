-- ===== src/Mq/Consumer.antt =====
-- flare-core-messaging/src/mq/consumer/runtime.rs: how a message, and a batch, is processed.
use flare_server_core.Prelude.{
  ℕ, Bool, false, not, ◌||◌, Option, none, some, String, List, [], ◌∷◌, length, ◌==◌, if◌then◌else◌,
  get, unwrap_or, format, Result, ok, err,
}
use flare_server_core.Prelude.Decimal.{to_string, is_blank}
use flare_server_core.Mq.Types.{
  Message, MessageResult, ack, nack, dead_letter, ConsumerError, handler_error, retry_error,
  dlq_error,
}
use flare_server_core.Mq.Failure.{
  FailureAction, FailureContext, from_error, action_for_nack, action_for_error,
  action_for_dead_letter, signed_to_string,
}
use flare_server_core.Mq.Effects.{
  Effect, acked, nacked, termed, retried, dead_lettered, recorded, Outside, Parts, M, ◌>>=◌, ◌>>◌,
  pure, fail, attempt, call, call_check, call_dispatch, call_dispatch_batch,
}

-- The `x-envelope-id` header, unless it is blank.
unfoldable pub envelope_id : Option String → String → String
envelope_id none id = id
envelope_id (some e) id = if not (is_blank e) then e else id

-- ConsumerRuntime::idempotency_key
unfoldable pub idempotency_key : Message → String
unfolding envelope_id
idempotency_key m =
    let id = envelope_id (get "x-envelope-id" m.context.headers) m.context.message_id in
    if not (is_blank id)
    then format (m.context.topic ∷ ":" ∷ id ∷ [])
    else format (
        m.context.topic
        ∷ ":"
        ∷ signed_to_string m.context.partition
        ∷ ":"
        ∷ signed_to_string m.context.offset
        ∷ [])

-- ConsumerRuntime::ordered_key
unfoldable pub ordered_key : Message → String
ordered_key m = unwrap_or m.context.topic m.context.key

-- `if let Some(ack) = ack_handle`, and a call on it
unfoldable pub on_handle : Outside → (ℕ → Effect) → Option ℕ → M (Unit {0})
on_handle o e none = pure tt
on_handle o e (some h) = call o (e h)

-- ConsumerRuntime::is_duplicate
unfoldable pub is_duplicate : Outside → Parts → Message → M Bool
is_duplicate o parts m =
    if parts.idempotency_store then call_check o (idempotency_key m) else pure false

-- ConsumerRuntime::record_consumed
unfoldable pub record_consumed : Outside → Parts → String → M (Unit {0})
record_consumed o parts key = if parts.idempotency_store then call o (recorded key) else pure tt

-- `message.ok_or_else(..)?`, and the rest with the message
abbrev pub with_message : Option Message → ConsumerError → (Message → M (Unit {0})) → M (Unit {0})
with_message none e k = fail e
with_message (some m) e k = k m

unfoldable pub native_retry : Outside → Option ℕ → M (Unit {0}) → M (Unit {0})
native_retry o none otherwise = otherwise
native_retry o (some h) otherwise =
    if o.supports_native_retry h then call o (nacked h) else otherwise

abbrev pub no_retry : ConsumerError
no_retry =
    retry_error
      "retry publisher is not configured and broker ack handle does not support native retry"

-- The arm `FailureAction::Retry`.
unfoldable pub apply_retry :
    Outside → Parts → Option Message → Option ℕ → FailureContext → M (Unit {0})
unfolding on_handle native_retry
apply_retry o parts m h f =
    if parts.retry_publisher
    then with_message m (retry_error "retry publisher requires the original message")
        (λ m. do call o (retried m f); on_handle o acked h)
    else native_retry o h (fail no_retry)

-- The arm `FailureAction::DeadLetter`.
unfoldable pub apply_dead_letter :
    Outside → Parts → Option Message → Option ℕ → FailureContext → M (Unit {0})
unfolding on_handle native_retry
apply_dead_letter o parts m h f =
    if parts.dead_letter_publisher
    then with_message m (dlq_error "dead-letter publisher requires the original message")
        (λ m. do call o (dead_lettered m f); on_handle o termed h)
    else do
      native_retry o h (pure tt)
      fail (dlq_error "dead-letter publisher is not configured; original message was not termed")

-- ConsumerRuntime::apply_failure_action
unfoldable pub apply_failure_action :
    Outside → Parts → Option Message → Option ℕ → FailureAction → FailureContext → M (Unit {0})
unfolding apply_retry apply_dead_letter
apply_failure_action o parts m h FailureAction.retry f = apply_retry o parts m h f
apply_failure_action o parts m h FailureAction.dead_letter f = apply_dead_letter o parts m h f

-- `FailureContext::new(reason, None, retry_count)`
abbrev pub without_error : String → ℕ → FailureContext
without_error reason n = record { reason = reason; error = none; retry_count = n }

-- A copy of the message, where a publisher may need it.
abbrev pub failure_message : Parts → Message → Option Message
failure_message parts m =
    if parts.retry_publisher || parts.dead_letter_publisher then some m else none

-- What a message is acknowledged with: its key, its count, its handle and the copy.
pub record BatchAckHandle : Type 0 where
  pub message_id : String
  pub key : String
  pub retry_count : ℕ
  pub handle : Option ℕ
  pub copy : Option Message

abbrev pub handle_of : Parts → Message → BatchAckHandle
handle_of parts m = record {
  message_id = m.context.message_id;
  key = idempotency_key m;
  retry_count = m.context.retry_count;
  handle = m.ack_handle;
  copy = failure_message parts m;
}

-- The failure path of a result that is no `Ack`.
unfoldable pub apply_nack : Outside → Parts → BatchAckHandle → M (Unit {0})
apply_nack o parts b =
    apply_failure_action o parts b.copy b.handle (action_for_nack parts.retry_policy b.retry_count)
      (without_error "handler_nack" b.retry_count)

unfoldable pub apply_dead_letter_result : Outside → Parts → BatchAckHandle → M (Unit {0})
apply_dead_letter_result o parts b =
    apply_failure_action o parts b.copy b.handle (action_for_dead_letter parts.retry_policy)
      (without_error "handler_dead_letter" b.retry_count)

unfoldable pub apply_error :
    Outside → Parts → String → ConsumerError → BatchAckHandle → M (Unit {0})
apply_error o parts reason e b =
    apply_failure_action o parts b.copy b.handle
      (action_for_error parts.retry_policy e b.retry_count) (from_error reason e b.retry_count)

-- The `match` on the result of the dispatcher in `process_message`.
unfoldable pub process_result : Outside → Parts → BatchAckHandle → MessageResult → M (Unit {0})
unfolding record_consumed on_handle apply_nack apply_dead_letter_result
process_result o parts b ack = do record_consumed o parts b.key; on_handle o acked b.handle
process_result o parts b nack = apply_nack o parts b
process_result o parts b dead_letter = apply_dead_letter_result o parts b

unfoldable pub process_dispatched :
    Outside → Parts → BatchAckHandle → Result MessageResult ConsumerError → M (Unit {0})
unfolding process_result apply_error
process_dispatched o parts b (err e) = apply_error o parts "handler_error" e b
process_dispatched o parts b (ok r) = process_result o parts b r

-- ConsumerRuntime::process_message
unfoldable pub process_message : Outside → Parts → Message → M (Unit {0})
unfolding is_duplicate on_handle process_dispatched
process_message o parts m = do
  duplicate ← is_duplicate o parts m
  if duplicate
      then on_handle o acked m.ack_handle
      else (attempt (call_dispatch o m) >>= λ r. process_dispatched o parts (handle_of parts m) r)

-- The first loop of `process_batch`: duplicates are acknowledged, the others are kept.
unfoldable pub keep_new : Outside → Parts → List Message → M (List Message)
unfolding is_duplicate on_handle
keep_new o parts [] = pure []
keep_new o parts (m ∷ ms) =
    let rest = keep_new o parts ms in
    do
      duplicate ← is_duplicate o parts m
      if duplicate
          then (on_handle o acked m.ack_handle >> rest)
          else (rest >>= λ kept. pure (m ∷ kept))

-- `if first_error.is_none() { first_error = Some(err) }`
abbrev pub first_of : Option ConsumerError → Result (Unit {0}) ConsumerError → Option ConsumerError
first_of (some e) r = some e
first_of none (err e) = some e
first_of none (ok _) = none

-- `if let Some(err) = first_error { return Err(err) }`
abbrev pub return_first : Option ConsumerError → M (Unit {0})
return_first none = pure tt
return_first (some e) = fail e

unfoldable pub error_to_each :
    Outside
    → Parts
    → ConsumerError
    → List BatchAckHandle
    → Option ConsumerError
    → M (Option ConsumerError)
error_to_each o parts e [] first = pure first
error_to_each o parts e (b ∷ bs) first = do
  r ← attempt (apply_error o parts "batch_handler_error" e b)
  error_to_each o parts e bs (first_of first r)

-- ConsumerRuntime::apply_error_to_all
unfoldable pub apply_error_to_all :
    Outside → Parts → List BatchAckHandle → ConsumerError → M (Unit {0})
apply_error_to_all o parts bs e = do first ← error_to_each o parts e bs none; return_first first

-- One turn of the last loop of `process_batch`: only an error of the store ends the loop.
unfoldable pub settle_one :
    Outside → Parts → BatchAckHandle → MessageResult → M (Result (Unit {0}) ConsumerError)
settle_one o parts b ack = do record_consumed o parts b.key; attempt (on_handle o acked b.handle)
settle_one o parts b nack = attempt (apply_nack o parts b)
settle_one o parts b dead_letter = attempt (apply_dead_letter_result o parts b)

unfoldable pub settle_each :
    Outside
    → Parts
    → List BatchAckHandle
    → List MessageResult
    → Option ConsumerError
    → M (Option ConsumerError)
settle_each o parts (b ∷ bs) (r ∷ rs) first = do
  x ← settle_one o parts b r
  settle_each o parts bs rs (first_of first x)
settle_each o parts _ _ first = pure first

abbrev pub mismatch : (results messages : ℕ) → ConsumerError
mismatch n m = handler_error (
    format
      ("batch handler returned " ∷ to_string n ∷ " results for " ∷ to_string m ∷ " messages" ∷ []))

unfoldable pub settle_results :
    Outside → Parts → List BatchAckHandle → List MessageResult → M (Unit {0})
settle_results o parts bs rs =
    if length rs == length bs
    then (settle_each o parts bs rs none >>= return_first)
    else (apply_error_to_all o parts bs (mismatch (length rs) (length bs))
        >> fail (mismatch (length rs) (length bs)))

unfoldable pub settle_dispatched :
    Outside → Parts → List BatchAckHandle → Result (List MessageResult) ConsumerError → M (Unit {0})
settle_dispatched o parts bs (err e) = apply_error_to_all o parts bs e
settle_dispatched o parts bs (ok rs) = settle_results o parts bs rs

abbrev pub handles_of : Parts → List Message → List BatchAckHandle
handles_of parts [] = []
handles_of parts (m ∷ ms) = handle_of parts m ∷ handles_of parts ms

unfoldable pub dispatch_kept : Outside → Parts → List Message → M (Unit {0})
dispatch_kept o parts [] = pure tt
dispatch_kept o parts (m ∷ ms) = attempt (call_dispatch_batch o (m ∷ ms)) >>= λ r.
    settle_dispatched o parts (handles_of parts (m ∷ ms)) r

-- ConsumerRuntime::process_batch
unfoldable pub process_batch : Outside → Parts → List Message → M (Unit {0})
process_batch o parts ms = keep_new o parts ms >>= λ kept. dispatch_kept o parts kept
