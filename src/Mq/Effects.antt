-- ===== src/Mq/Effects.antt =====
-- What a consumer does to the broker, the publishers, the store of consumed keys and the dispatcher,
-- in the order of the calls; the others answer by what has been done before.
use flare_server_core.Prelude.{ℕ, Bool, String, List, [], ◌∷◌, ◌++◌, Result, ok, err}
use flare_server_core.Mq.Types.{Message, MessageResult, ConsumerError}
use flare_server_core.Mq.Failure.{FailureContext, RetryPolicy}

-- The calls. A handle of the broker is a number.
pub data Effect : Type 0 where
  acked nacked termed : ℕ → Effect
  retried dead_lettered : Message → FailureContext → Effect
  checked recorded : String → Effect
  dispatched : Message → Effect
  dispatched_all : List Message → Effect

-- The parts that a runtime is given, as they answer after the calls so far.
pub record Outside : Type 0 where
  pub answer : List Effect → Effect → Result (Unit {0}) ConsumerError
  pub is_consumed : List Effect → String → Result Bool ConsumerError
  pub dispatch : List Effect → Message → Result MessageResult ConsumerError
  pub dispatch_batch : List Effect → List Message → Result (List MessageResult) ConsumerError
  pub supports_native_retry : ℕ → Bool

-- What `process_message` and `process_batch` are passed: which publishers and whether a store.
pub record Parts : Type 0 where
  pub retry_policy : RetryPolicy
  pub retry_publisher : Bool
  pub dead_letter_publisher : Bool
  pub idempotency_store : Bool

-- An async function that may return an error: the calls that it adds to those so far.
abbrev pub M : Type 0 → Type 0
M A = List Effect → Result A ConsumerError × List Effect

infixl 5 ◌>>=◌ ◌>>◌
abbrev pub ◌>>=◌ : {A B : Type 0} → M A → (A → M B) → M B
◌>>=◌ m f log = let (r, log') = m log in elim r [ err e ↦ (err e, log') | ok a ↦ f a log' ]

abbrev pub ◌>>◌ : {A B : Type 0} → M A → M B → M B
m >> k = m >>= λ _. k

abbrev pub pure : {A : Type 0} → A → M A
pure a log = (ok a, log)

abbrev pub fail : {A : Type 0} → ConsumerError → M A
fail e log = (err e, log)

-- The result of a call as a value, in place of `?`.
abbrev pub attempt : {A : Type 0} → M A → M (Result A ConsumerError)
attempt m log = let (r, log') = m log in (ok r, log')

-- A call whose answer is a success or an error.
abbrev pub call : Outside → Effect → M (Unit {0})
call o e log = (o.answer log e, log ++ e ∷ [])

abbrev pub call_check : Outside → String → M Bool
call_check o k log = (o.is_consumed log k, log ++ checked k ∷ [])

abbrev pub call_dispatch : Outside → Message → M MessageResult
call_dispatch o m log = (o.dispatch log m, log ++ dispatched m ∷ [])

abbrev pub call_dispatch_batch : Outside → List Message → M (List MessageResult)
call_dispatch_batch o ms log = (o.dispatch_batch log ms, log ++ dispatched_all ms ∷ [])
