-- ===== src/Mq/Settled.antt =====
-- How often runtime.rs acknowledges a message: an acknowledgement of any kind settles it.
use flare_server_core.Prelude.{
  ℕ, ◌==◌, ◌+◌, ◌≤◌, ◌≡◌, refl, Bool, true, false, Option, none, some, String, List, [], ◌∷◌, ◌++◌,
  if◌then◌else◌, arith, Bool-cases, inl, inr, Result, ok, err,
}
use flare_server_core.Mq.Types.{Message, MessageResult, ack, nack, dead_letter, ConsumerError}
use flare_server_core.Mq.Failure.{FailureAction, FailureContext}
use flare_server_core.Mq.Effects.{
  Effect, acked, nacked, termed, retried, dead_lettered, checked, recorded, dispatched, Outside,
  Parts, M, ◌>>=◌, ◌>>◌, pure, fail, attempt, call, call_check, call_dispatch,
}
use flare_server_core.Mq.Consumer.{
  idempotency_key, no_retry, on_handle, is_duplicate, record_consumed, with_message, native_retry,
  apply_retry, apply_dead_letter, apply_failure_action, BatchAckHandle, handle_of, apply_nack,
  apply_dead_letter_result, apply_error, process_result, process_dispatched, process_message,
}

-- How acknowledgements are counted: what one of a handle counts.
module _ (count : ℕ → ℕ) where
  -- What an acknowledgement to the broker counts, by its handle; other calls count nothing.
  abbrev pub weight : Effect → ℕ
  weight (acked h) = count h
  weight (nacked h) = count h
  weight (termed h) = count h
  weight _ = 0

  abbrev pub settled : List Effect → ℕ
  settled [] = 0
  settled (e ∷ es) = weight e + settled es

  pub settled-append : (xs ys : List Effect) → settled (xs ++ ys) ≡ settled xs + settled ys
  settled-append [] ys = omega arith
  settled-append (x ∷ xs) ys = omega (arith, settled-append xs ys)

  -- The messages that are left to settle are `n` before and `w a` after a success: none is settled
  -- twice. After an error there may be more left.
  abbrev pub After :
      {A : Type 0} → (b n : ℕ) → (A → ℕ) → Result A ConsumerError → List Effect → Type 0
  After b n w (err e) log = settled log ≤ b + n
  After b n w (ok a) log = settled log + w a ≡ b + n

  abbrev pub Settles : {A : Type 0} → M A → ℕ → (A → ℕ) → Type 0
  Settles m n w = (log : List Effect) → After (settled log) n w (m log).0 (m log).1

  After-shift :
      {A : Type 0} (b n b' n' : ℕ) (w : A → ℕ) (r : Result A ConsumerError) (log : List Effect)
      → b' + n' ≡ b + n
      → After b' n' w r log
      → After b n w r log
  After-shift b n b' n' w (err e) log same h = omega arith
  After-shift b n b' n' w (ok a) log same h = omega arith

  pub bind-Settles :
      {A B : Type 0} (m : M A) (f : A → M B) (n : ℕ) (w : A → ℕ) (v : B → ℕ)
      → Settles m n w
      → ((a : A) → Settles (f a) (w a) v)
      → Settles (m >>= f) n v
  bind-Settles {A} {B} m f n w v hm hf log = go (m log).0 (m log).1 (hm log)
    where
      go :
          (r : Result A ConsumerError) (l : List Effect)
          → After (settled log) n w r l
          → let x : Result B ConsumerError × List Effect = elim r [
            | err e ↦ (err e, l)
            | ok a ↦ f a l
          ] in
            After (settled log) n v x.0 x.1
      go (err e) l h = h
      go (ok a) l h = After-shift (settled log) n (settled l) (w a) v (f a l).0 (f a l).1 h (hf a l)

  pub pure-Settles : {A : Type 0} (a : A) (w : A → ℕ) → Settles (pure a) (w a) w
  pure-Settles a w log = refl

  pub fail-Settles : {A : Type 0} (e : ConsumerError) (n : ℕ) (w : A → ℕ) → Settles (fail e) n w
  fail-Settles e n w log = omega arith

  -- A call that may settle, with the debt that it leaves.
  After-call :
      {A : Type 0} (log : List Effect) (e : Effect) (k n : ℕ) (r : Result A ConsumerError)
      → k ≡ weight e + n
      → After (settled log) k (λ _. n) r (log ++ e ∷ [])
  After-call log e k n (err x) same = omega (arith, settled-append log (e ∷ []))
  After-call log e k n (ok a) same = omega (arith, settled-append log (e ∷ []))

  call-Settles :
      (o : Outside) (e : Effect) (k n : ℕ) → k ≡ weight e + n → Settles (call o e) k (λ _. n)
  call-Settles o e k n same log = After-call log e k n (o.answer log e) same

  abbrev pub debt : Option ℕ → ℕ
  debt none = 0
  debt (some h) = count h

  pub if-Settles :
      {A : Type 0} (c : Bool) (x y : M A) (n : ℕ) (w : A → ℕ)
      → Settles x n w
      → Settles y n w
      → Settles (if c then x else y) n w
  if-Settles true x y n w hx hy = hx
  if-Settles false x y n w hx hy = hy

  pub on_handle-Settles :
      (o : Outside) (e : ℕ → Effect) (h : Option ℕ)
      → ((i : ℕ) → weight (e i) ≡ count i)
      → Settles (on_handle o e h) (debt h) (λ _. 0)
  unfolding on_handle
  on_handle-Settles o e none one = λ log. refl
  on_handle-Settles o e (some h) one = call-Settles o (e h) (count h) 0 (omega (arith, one h))

  pub is_duplicate-Settles :
      (o : Outside) (parts : Parts) (m : Message) (n : ℕ)
      → Settles (is_duplicate o parts m) n (λ _. n)
  unfolding is_duplicate
  is_duplicate-Settles o parts m n =
      if-Settles parts.idempotency_store (call_check o (idempotency_key m)) (pure false) n (λ _. n)
        (λ log.
          After-call log (checked (idempotency_key m)) n n (o.is_consumed log (idempotency_key m))
            (omega arith))
        (λ log. refl)

  pub record_consumed-Settles :
      (o : Outside) (parts : Parts) (key : String) (n : ℕ)
      → Settles (record_consumed o parts key) n (λ _. n)
  unfolding record_consumed
  record_consumed-Settles o parts key n =
      if-Settles parts.idempotency_store (call o (recorded key)) (pure tt) n (λ _. n)
        (call-Settles o (recorded key) n n (omega arith)) (λ log. refl)

  native_retry-Settles :
      (o : Outside) (h : Option ℕ) (x : M (Unit {0}))
      → Settles x (debt h) (λ _. 0)
      → Settles (native_retry o h x) (debt h) (λ _. 0)
  unfolding native_retry
  native_retry-Settles o none x hx = hx
  native_retry-Settles o (some h) x hx =
      if-Settles (o.supports_native_retry h) (call o (nacked h)) x (count h) (λ _. 0)
        (call-Settles o (nacked h) (count h) 0 (omega arith)) hx

  with_message-Settles :
      (m : Option Message) (e : ConsumerError) (k : Message → M (Unit {0})) (n : ℕ)
      → ((m : Message) → Settles (k m) n (λ _. 0))
      → Settles (with_message m e k) n (λ _. 0)
  with_message-Settles none e k n h = fail-Settles {A = Unit {0}} e n (λ _. 0)
  with_message-Settles (some m) e k n h = h m

  -- A publication, and then the handle.
  publish-Settles :
      (o : Outside) (e : Effect) (a : ℕ → Effect) (h : Option ℕ)
      → weight e ≡ 0
      → ((i : ℕ) → weight (a i) ≡ count i)
      → Settles (call o e >> on_handle o a h) (debt h) (λ _. 0)
  publish-Settles o e a h free one =
      bind-Settles (call o e) (λ _. on_handle o a h) (debt h) (λ _. debt h) (λ _. 0)
        (call-Settles o e (debt h) (debt h) (omega (arith, free)))
        (λ u. on_handle-Settles o a h one)

  apply_retry-Settles :
      (o : Outside) (parts : Parts) (m : Option Message) (h : Option ℕ) (f : FailureContext)
      → Settles (apply_retry o parts m h f) (debt h) (λ _. 0)
  unfolding apply_retry
  apply_retry-Settles o parts m h f =
      if-Settles parts.retry_publisher _ _ (debt h) (λ _. 0)
        (with_message-Settles m _ _ (debt h)
          (λ m. publish-Settles o (retried m f) acked h refl (λ i. refl)))
        (native_retry-Settles o h _ (fail-Settles {A = Unit {0}} no_retry (debt h) (λ _. 0)))

  -- A dead letter without its publisher is given back to the broker, and the error says so.
  give_back-Settles :
      (o : Outside) (h : Option ℕ) (e : ConsumerError)
      → Settles {A = Unit {0}} (native_retry o h (pure tt) >> fail e) (debt h) (λ _. 0)
  unfolding native_retry
  give_back-Settles o none e log = omega arith
  give_back-Settles o (some h) e log = elim (Bool-cases (o.supports_native_retry h)) [
    | inl native ↦ rw native (below (o.answer log (nacked h)))
    | inr other ↦ rw other (omega arith)
  ]
    where
      below :
          (r : Result (Unit {0}) ConsumerError)
          → let l = log ++ nacked h ∷ [] in
            let x : Result (Unit {0}) ConsumerError × List Effect = elim r [
              | err d ↦ (err d, l)
              | ok _ ↦ (err e, l)
            ] in
            After (settled log) (count h) (λ _. 0) x.0 x.1
      below (err d) = omega (arith, settled-append log (nacked h ∷ []))
      below (ok u) = omega (arith, settled-append log (nacked h ∷ []))

  apply_dead_letter-Settles :
      (o : Outside) (parts : Parts) (m : Option Message) (h : Option ℕ) (f : FailureContext)
      → Settles (apply_dead_letter o parts m h f) (debt h) (λ _. 0)
  unfolding apply_dead_letter
  apply_dead_letter-Settles o parts m h f =
      if-Settles parts.dead_letter_publisher _ _ (debt h) (λ _. 0)
        (with_message-Settles m _ _ (debt h)
          (λ m. publish-Settles o (dead_lettered m f) termed h refl (λ i. refl)))
        (give_back-Settles o h _)

  -- Whatever the action, the message is settled at most once, and exactly once on success.
  pub apply_failure_action-Settles :
      (o : Outside) (parts : Parts) (m : Option Message) (h : Option ℕ) (a : FailureAction)
      (f : FailureContext)
      → Settles (apply_failure_action o parts m h a f) (debt h) (λ _. 0)
  unfolding apply_failure_action
  apply_failure_action-Settles o parts m h FailureAction.retry f = apply_retry-Settles o parts m h f
  apply_failure_action-Settles o parts m h FailureAction.dead_letter f =
      apply_dead_letter-Settles o parts m h f

  process_dispatched-Settles :
      (o : Outside) (parts : Parts) (b : BatchAckHandle) (r : Result MessageResult ConsumerError)
      → Settles (process_dispatched o parts b r) (debt b.handle) (λ _. 0)
  unfolding process_dispatched process_result apply_error apply_nack apply_dead_letter_result
  process_dispatched-Settles o parts b (err e) =
      apply_failure_action-Settles o parts b.copy b.handle _ _
  process_dispatched-Settles o parts b (ok ack) =
      bind-Settles (record_consumed o parts b.key) (λ _. on_handle o acked b.handle) (debt b.handle)
        (λ _. debt b.handle) (λ _. 0) (record_consumed-Settles o parts b.key (debt b.handle))
        (λ u. on_handle-Settles o acked b.handle (λ i. refl))
  process_dispatched-Settles o parts b (ok nack) =
      apply_failure_action-Settles o parts b.copy b.handle _ _
  process_dispatched-Settles o parts b (ok dead_letter) =
      apply_failure_action-Settles o parts b.copy b.handle _ _

  process_message-Settles :
      (o : Outside) (parts : Parts) (m : Message)
      → Settles (process_message o parts m) (debt m.ack_handle) (λ _. 0)
  unfolding process_message
  process_message-Settles o parts m =
      bind-Settles (is_duplicate o parts m) _ (debt m.ack_handle) (λ _. debt m.ack_handle) (λ _. 0)
        (is_duplicate-Settles o parts m (debt m.ack_handle))
        (λ duplicate.
          if-Settles duplicate _ _ (debt m.ack_handle) (λ _. 0)
            (on_handle-Settles o acked m.ack_handle (λ i. refl))
            (bind-Settles (attempt (call_dispatch o m)) _ (debt m.ack_handle)
              (λ _. debt m.ack_handle) (λ _. 0)
              (λ log. omega (arith, settled-append log (dispatched m ∷ [])))
              (λ r. process_dispatched-Settles o parts (handle_of parts m) r)))

-- All acknowledgements, and those of one handle.
abbrev pub every : ℕ → ℕ
every h = 1

abbrev pub only : ℕ → ℕ → ℕ
only i h = if h == i then 1 else 0

-- `process_message` acknowledges a message that has a handle at most once, in whichever of the three
-- ways and by this handle, and exactly once where it returns without an error; one without a handle
-- never. So it is however the dispatcher, the publishers, the store and the broker answer.
pub process_message_settled :
    (o : Outside) (parts : Parts) (m : Message) (log : List Effect)
    → let x = process_message o parts m log in
      After every (settled every log) (debt every m.ack_handle) (λ _. 0) x.0 x.1
      × ((i : ℕ)
          → After (only i) (settled (only i) log) (debt (only i) m.ack_handle) (λ _. 0) x.0 x.1)
process_message_settled o parts m log = (
  process_message-Settles every o parts m log,
  λ i. process_message-Settles (only i) o parts m log,
)
