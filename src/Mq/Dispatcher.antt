-- ===== src/Mq/Dispatcher.antt =====
-- flare-core-messaging/src/mq/consumer: dispatcher.rs and handler.rs. A handler may answer
-- differently from call to call: it is given the number of the call.
use text.Mathlib.Text.{starts_with}
use flare_server_core.Prelude.{
  ℕ, suc, Bool, false, ◌&&◌, Option, none, some, String, List, [], ◌∷◌, all, StringMap, get, insert,
  contains_key, format, str_eq, if◌then◌else◌, Result, ok, err, ◌==◌,
}
use flare_server_core.Prelude.Decimal.{ends_with_star}
use flare_server_core.Mq.Types.{
  Message, MessageResult, nack, ConsumerError, no_handler, configuration_error,
}

-- MessageHandler
pub record Handler : Type 0 where
  pub name : String
  pub supports_batch : Bool
  pub handle : (call : ℕ) → Message → Result MessageResult ConsumerError
  pub handle_batch : (call : ℕ) → List Message → Result (List MessageResult) ConsumerError

abbrev pub cons_result :
    MessageResult
    → Result (List MessageResult) ConsumerError
    → Result (List MessageResult) ConsumerError
cons_result r (ok rs) = ok (r ∷ rs)
cons_result r (err e) = err e

-- MessageHandler::handle_batch, the default: one message after the other, up to the first error
unfoldable pub default_handle_batch :
    ((call : ℕ) → Message → Result MessageResult ConsumerError)
    → ℕ
    → List Message
    → Result (List MessageResult) ConsumerError
default_handle_batch handle call [] = ok []
default_handle_batch handle call (m ∷ ms) = elim (handle call m) [
  | err e ↦ err e
  | ok r ↦ cons_result r (default_handle_batch handle (suc call) ms)
]

abbrev pub Handlers : Type 0
Handlers = StringMap Handler

-- `pattern.ends_with('*')` and `topic.starts_with(prefix)`
abbrev pub matches : String → String → Bool
matches topic pattern = elim (ends_with_star pattern) [
  | none ↦ false
  | some prefix ↦ starts_with topic prefix
]

unfoldable pub find_wildcard : String → Handlers → Option Handler
find_wildcard topic [] = none
find_wildcard topic ((pattern, h) ∷ hs) =
    if matches topic pattern then some h else find_wildcard topic hs

-- TopicDispatcher::find_handler; `iterate` is the order in which the map is walked.
unfoldable pub find_handler : (Handlers → Handlers) → Handlers → String → Option Handler
unfolding find_wildcard
find_handler iterate hs topic = elim (get topic hs) [
  | some h ↦ some h
  | none ↦ find_wildcard topic (iterate hs)
]

-- HandlerRegistry::get, by which RegistryDispatcher finds a handler
unfoldable pub registry_get : Handlers → String → Option Handler
registry_get hs topic = get topic hs

abbrev pub already_registered : String → ConsumerError
already_registered topic =
    configuration_error (format ("Handler already registered for topic: " ∷ topic ∷ []))

-- TopicDispatcher::register
unfoldable pub register : Handlers → String → Handler → Result Handlers ConsumerError
register hs topic h =
    if contains_key topic hs then err (already_registered topic) else ok (insert topic h hs)

-- HandlerRegistry::register
unfoldable pub registry_register : Handlers → String → Handler → Handlers
registry_register hs name h = insert name h hs

-- RegistryDispatcher::register: `Arc::try_unwrap` of a clone, which succeeds for a sole owner only;
-- `owners` counts the clones of the registry before the call.
unfoldable pub shared_register :
    (owners : ℕ) → Handlers → String → Handler → Result Handlers ConsumerError
unfolding registry_register
shared_register owners hs topic h =
    if suc owners == 1
    then ok (registry_register hs topic h)
    else err (configuration_error "Registry is shared, cannot mutate")

-- `dispatch` of both dispatchers, by the way in which they find a handler.
unfoldable pub dispatch :
    (String → Option Handler) → (call : ℕ) → Message → Result MessageResult ConsumerError
dispatch find call m = elim (find m.context.topic) [
  | none ↦ err (no_handler m.context.topic)
  | some h ↦ h.handle call m
]

abbrev pub or_nack : Result MessageResult ConsumerError → MessageResult
or_nack (ok r) = r
or_nack (err e) = nack

-- The fallback of `dispatch_batch`: one message after the other; an error of a handler is a nack.
unfoldable pub dispatch_each :
    (String → Option Handler)
    → (call : ℕ) → List Message
    → Result (List MessageResult) ConsumerError
dispatch_each find call [] = ok []
dispatch_each find call (m ∷ ms) = elim (find m.context.topic) [
  | none ↦ err (no_handler m.context.topic)
  | some h ↦ cons_result (or_nack (h.handle call m)) (dispatch_each find (suc call) ms)
]

abbrev pub is_named : String → Option Handler → Bool
is_named name none = false
is_named name (some h) = str_eq h.name name

-- `dispatch_batch` of both dispatchers
unfoldable pub dispatch_batch :
    (String → Option Handler)
    → (call : ℕ) → List Message
    → Result (List MessageResult) ConsumerError
unfolding dispatch_each
dispatch_batch find call [] = ok []
dispatch_batch find call (m ∷ ms) = elim (find m.context.topic) [
  | none ↦ err (no_handler m.context.topic)
  | some first ↦
      if all (λ (n : Message). is_named first.name (find n.context.topic)) (m ∷ ms)
        && first.supports_batch
      then first.handle_batch call (m ∷ ms)
      else dispatch_each find call (m ∷ ms)
]
