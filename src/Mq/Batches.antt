-- ===== src/Mq/Batches.antt =====
-- How often process_batch of runtime.rs acknowledges the messages of a batch.
use flare_server_core.Prelude.{
  ℕ, ◌+◌, ◌≤◌, ◌≡◌, refl, Option, none, some, String, List, [], ◌∷◌, length, ◌==◌, arith,
  Bool-cases, inl, inr, Result, ok, err,
}
use flare_server_core.Mq.Types.{Message, MessageResult, ack, nack, dead_letter, ConsumerError}
use flare_server_core.Mq.Effects.{
  Effect, acked, dispatched_all, Outside, Parts, M, ◌>>◌, pure, fail, attempt, call_dispatch_batch,
}
use flare_server_core.Mq.Consumer.{
  on_handle, is_duplicate, record_consumed, BatchAckHandle, handles_of, apply_nack,
  apply_dead_letter_result, apply_error, keep_new, first_of, return_first, error_to_each,
  apply_error_to_all, settle_one, settle_each, mismatch, settle_results, settle_dispatched,
  dispatch_kept, process_batch,
}
use flare_server_core.Mq.Settled.{
  every, only, settled, settled-append, After, Settles, bind-Settles, pure-Settles, fail-Settles,
  debt, if-Settles, on_handle-Settles, is_duplicate-Settles, record_consumed-Settles,
  apply_failure_action-Settles,
}

module _ (count : ℕ → ℕ) where
  abbrev pub debts : List BatchAckHandle → ℕ
  debts [] = 0
  debts (b ∷ bs) = debt count b.handle + debts bs

  abbrev pub message_debts : List Message → ℕ
  message_debts [] = 0
  message_debts (m ∷ ms) = debt count m.ack_handle + message_debts ms

  debts-handles_of :
      (parts : Parts) (ms : List Message) → debts (handles_of parts ms) ≡ message_debts ms
  debts-handles_of parts [] = refl
  debts-handles_of parts (m ∷ ms) = omega (arith, debts-handles_of parts ms)

  -- Debts that a computation does not touch.
  frame-Settles :
      {A : Type 0} (m : M A) (n : ℕ) (w : A → ℕ) (k n' : ℕ) (v : A → ℕ)
      → n' ≡ n + k
      → ((a : A) → v a ≡ w a + k)
      → Settles count m n w
      → Settles count m n' v
  frame-Settles {A} m n w k n' v en ev h log = go (m log).0 (m log).1 (h log)
    where
      go :
          (r : Result A ConsumerError) (l : List Effect)
          → After count (settled count log) n w r l
          → After count (settled count log) n' v r l
      go (err e) l h = omega arith
      go (ok a) l h = omega (arith, ev a)

  keep_new-Settles :
      (o : Outside) (parts : Parts) (ms : List Message)
      → Settles count (keep_new o parts ms) (message_debts ms) message_debts
  unfolding keep_new
  keep_new-Settles o parts [] = λ log. refl
  keep_new-Settles o parts (m ∷ ms) =
      bind-Settles count (is_duplicate o parts m) _ (message_debts (m ∷ ms))
        (λ _. message_debts (m ∷ ms)) message_debts
        (is_duplicate-Settles count o parts m (message_debts (m ∷ ms)))
        (λ duplicate.
          if-Settles count duplicate _ _ (message_debts (m ∷ ms)) message_debts
            (bind-Settles count (on_handle o acked m.ack_handle) (λ _. keep_new o parts ms)
              (message_debts (m ∷ ms)) (λ _. message_debts ms) message_debts
              (frame-Settles (on_handle o acked m.ack_handle) (debt count m.ack_handle) (λ _. 0)
                (message_debts ms) (message_debts (m ∷ ms)) (λ _. message_debts ms) refl
                (λ u. omega arith) (on_handle-Settles count o acked m.ack_handle (λ i. refl)))
              (λ u. keep_new-Settles o parts ms))
            (bind-Settles count (keep_new o parts ms) (λ kept. pure (m ∷ kept))
              (message_debts (m ∷ ms)) (λ kept. message_debts (m ∷ kept)) message_debts
              (frame-Settles (keep_new o parts ms) (message_debts ms) message_debts
                (debt count m.ack_handle) (message_debts (m ∷ ms))
                (λ kept. message_debts (m ∷ kept)) (omega arith) (λ kept. omega arith)
                (keep_new-Settles o parts ms))
              (λ kept. pure-Settles count (m ∷ kept) message_debts)))

  -- A loop that saves the first error and goes on.
  abbrev pub Loops :
      (b n : ℕ)
      → Option ConsumerError
      → Result (Option ConsumerError) ConsumerError
      → List Effect
      → Type 0
  Loops b n first (err e) log = settled count log ≤ b + n
  Loops b n first (ok none) log = (first ≡ none) × (settled count log ≡ b + n)
  Loops b n first (ok (some e)) log = settled count log ≤ b + n

  Loops-start :
      (b : ℕ) (first : Option ConsumerError) (log : List Effect)
      → settled count log ≡ b
      → Loops b 0 first (ok first) log
  Loops-start b none log same = (refl, omega arith)
  Loops-start b (some e) log same = omega arith

  -- A saved result, and the rest of the loop.
  Loops-step :
      (b n k : ℕ) (first : Option ConsumerError) (r : Result (Unit {0}) ConsumerError)
      (l : List Effect) (x : Result (Option ConsumerError) ConsumerError) (l' : List Effect)
      → After count b n (λ _. 0) r l
      → Loops (settled count l) k (first_of first r) x l'
      → Loops b (n + k) first x l'
  Loops-step b n k first (err e) l (err x) l' h more = omega arith
  Loops-step b n k first (ok u) l (err x) l' h more = omega arith
  Loops-step b n k first (err e) l (ok (some x)) l' h more = omega arith
  Loops-step b n k first (ok u) l (ok (some x)) l' h more = omega arith
  Loops-step b n k none (err e) l (ok none) l' h more = absurd (cc (more.0))
  Loops-step b n k (some f) (err e) l (ok none) l' h more = absurd (cc (more.0))
  Loops-step b n k none (ok u) l (ok none) l' h more = (refl, omega (arith, more.1))
  Loops-step b n k (some f) (ok u) l (ok none) l' h more = absurd (cc (more.0))

  apply_error-Settles :
      (o : Outside) (parts : Parts) (reason : String) (e : ConsumerError) (b : BatchAckHandle)
      → Settles count (apply_error o parts reason e b) (debt count b.handle) (λ _. 0)
  unfolding apply_error
  apply_error-Settles o parts reason e b =
      apply_failure_action-Settles count o parts b.copy b.handle _ _

  error_to_each-Loops :
      (o : Outside) (parts : Parts) (e : ConsumerError) (bs : List BatchAckHandle)
      (first : Option ConsumerError) (log : List Effect)
      → let x = error_to_each o parts e bs first log in
        Loops (settled count log) (debts bs) first x.0 x.1
  unfolding error_to_each
  error_to_each-Loops o parts e [] first log = Loops-start (settled count log) first log refl
  error_to_each-Loops o parts e (b ∷ bs) first log =
      let y = apply_error o parts "batch_handler_error" e b log in
      let x = error_to_each o parts e bs (first_of first y.0) y.1 in
      Loops-step (settled count log) (debt count b.handle) (debts bs) first y.0 y.1 x.0 x.1
        (apply_error-Settles o parts "batch_handler_error" e b log)
        (error_to_each-Loops o parts e bs (first_of first y.0) y.1)

  -- After count the loop the first error is returned.
  Loops-return :
      (b n : ℕ) (x : Result (Option ConsumerError) ConsumerError) (l : List Effect)
      → Loops b n none x l
      → let y : Result (Unit {0}) ConsumerError × List Effect = elim x [
        | err e ↦ (err e, l)
        | ok a ↦ return_first a l
      ] in
        After count b n (λ _. 0) y.0 y.1
  Loops-return b n (err e) l h = h
  Loops-return b n (ok none) l h = omega (arith, h.1)
  Loops-return b n (ok (some e)) l h = h

  apply_error_to_all-Settles :
      (o : Outside) (parts : Parts) (bs : List BatchAckHandle) (e : ConsumerError)
      → Settles count (apply_error_to_all o parts bs e) (debts bs) (λ _. 0)
  unfolding apply_error_to_all
  apply_error_to_all-Settles o parts bs e log =
      let x = error_to_each o parts e bs none log in
      Loops-return (settled count log) (debts bs) x.0 x.1
        (error_to_each-Loops o parts e bs none log)

  -- An error of the store, or the saved result of one message.
  abbrev pub One :
      (b n : ℕ) → Result (Result (Unit {0}) ConsumerError) ConsumerError → List Effect → Type 0
  One b n (err e) log = settled count log ≤ b + n
  One b n (ok r) log = After count b n (λ _. 0) r log

  record-One :
      (b n : ℕ) (x : Result (Unit {0}) ConsumerError) (l : List Effect) (k : M (Unit {0}))
      → After count b n (λ _. n) x l
      → Settles count k n (λ _. 0)
      → let y : Result (Result (Unit {0}) ConsumerError) ConsumerError × List Effect = elim x [
        | err e ↦ (err e, l)
        | ok _ ↦ attempt k l
      ] in
        One b n y.0 y.1
  record-One b n (err e) l k h hk = h
  record-One b n (ok u) l k h hk = go (k l).0 (k l).1 (hk l)
    where
      go :
          (r : Result (Unit {0}) ConsumerError) (l' : List Effect)
          → After count (settled count l) n (λ _. 0) r l'
          → After count b n (λ _. 0) r l'
      go (err e) l' after = omega arith
      go (ok v) l' after = omega arith

  settle_one-One :
      (o : Outside) (parts : Parts) (b : BatchAckHandle) (r : MessageResult) (log : List Effect)
      → let x = settle_one o parts b r log in One (settled count log) (debt count b.handle) x.0 x.1
  unfolding settle_one apply_nack apply_dead_letter_result
  settle_one-One o parts b ack log =
      let x = record_consumed o parts b.key log in
      record-One (settled count log) (debt count b.handle) x.0 x.1 (on_handle o acked b.handle)
        (record_consumed-Settles count o parts b.key (debt count b.handle) log)
        (on_handle-Settles count o acked b.handle (λ i. refl))
  settle_one-One o parts b nack log =
      apply_failure_action-Settles count o parts b.copy b.handle _ _ log
  settle_one-One o parts b dead_letter log =
      apply_failure_action-Settles count o parts b.copy b.handle _ _ log

  One-Loops :
      (b n k : ℕ) (first : Option ConsumerError)
      (x : Result (Result (Unit {0}) ConsumerError) ConsumerError) (l : List Effect)
      (rest : Option ConsumerError → M (Option ConsumerError))
      → One b n x l
      → ((f : Option ConsumerError) (log : List Effect)
          → Loops (settled count log) k f (rest f log).0 (rest f log).1)
      → let y : Result (Option ConsumerError) ConsumerError × List Effect = elim x [
        | err e ↦ (err e, l)
        | ok r ↦ rest (first_of first r) l
      ] in
        Loops b (n + k) first y.0 y.1
  One-Loops b n k first (err e) l rest h more = omega arith
  One-Loops b n k first (ok r) l rest h more =
      let y = rest (first_of first r) l in
      Loops-step b n k first r l y.0 y.1 h (more (first_of first r) l)

  settle_each-Loops :
      (o : Outside) (parts : Parts) (bs : List BatchAckHandle) (rs : List MessageResult)
      (first : Option ConsumerError) (log : List Effect)
      → length rs ≡ length bs
      → let x = settle_each o parts bs rs first log in
        Loops (settled count log) (debts bs) first x.0 x.1
  unfolding settle_each
  settle_each-Loops o parts [] [] first log same = Loops-start (settled count log) first log refl
  settle_each-Loops o parts [] (r ∷ rs) first log same = absurd (omega arith)
  settle_each-Loops o parts (b ∷ bs) [] first log same = absurd (omega arith)
  settle_each-Loops o parts (b ∷ bs) (r ∷ rs) first log same =
      let x = settle_one o parts b r log in
      One-Loops (settled count log) (debt count b.handle) (debts bs) first x.0 x.1
        (settle_each o parts bs rs) (settle_one-One o parts b r log)
        (λ f l. settle_each-Loops o parts bs rs f l (omega arith))

  -- A failure that is returned after everything was done.
  then_fail-Settles :
      (m : M (Unit {0})) (n : ℕ) (e : ConsumerError)
      → Settles count m n (λ _. 0)
      → Settles count {A = Unit {0}} (m >> fail e) n (λ _. 0)
  then_fail-Settles m n e h =
      bind-Settles count m (λ _. fail e) n (λ _. 0) (λ _. 0) h
        (λ u. fail-Settles count {A = Unit {0}} e 0 (λ _. 0))

  settle_results-Settles :
      (o : Outside) (parts : Parts) (bs : List BatchAckHandle) (rs : List MessageResult)
      → Settles count (settle_results o parts bs rs) (debts bs) (λ _. 0)
  unfolding settle_results
  settle_results-Settles o parts bs rs log = elim (Bool-cases (length rs == length bs)) [
    | inl same ↦
        let x = settle_each o parts bs rs none log in
        rw same (
          Loops-return (settled count log) (debts bs) x.0 x.1
            (settle_each-Loops o parts bs rs none log (ground arith)))
    | inr other ↦ rw other (
        then_fail-Settles (apply_error_to_all o parts bs (mismatch (length rs) (length bs)))
          (debts bs) (mismatch (length rs) (length bs))
          (apply_error_to_all-Settles o parts bs (mismatch (length rs) (length bs))) log)
  ]

  settle_dispatched-Settles :
      (o : Outside) (parts : Parts) (bs : List BatchAckHandle)
      (r : Result (List MessageResult) ConsumerError)
      → Settles count (settle_dispatched o parts bs r) (debts bs) (λ _. 0)
  unfolding settle_dispatched
  settle_dispatched-Settles o parts bs (err e) = apply_error_to_all-Settles o parts bs e
  settle_dispatched-Settles o parts bs (ok rs) = settle_results-Settles o parts bs rs

  dispatch_kept-Settles :
      (o : Outside) (parts : Parts) (ms : List Message)
      → Settles count (dispatch_kept o parts ms) (message_debts ms) (λ _. 0)
  unfolding dispatch_kept
  dispatch_kept-Settles o parts [] = λ log. refl
  dispatch_kept-Settles o parts (m ∷ ms) =
      let kept = m ∷ ms in
      bind-Settles count (attempt (call_dispatch_batch o kept)) _ (message_debts kept)
        (λ _. debts (handles_of parts kept)) (λ _. 0)
        (λ log.
          omega (
            arith,
            settled-append count log (dispatched_all kept ∷ []),
            debts-handles_of parts kept,
          ))
        (λ r. settle_dispatched-Settles o parts (handles_of parts kept) r)

  process_batch-Settles :
      (o : Outside) (parts : Parts) (ms : List Message)
      → Settles count (process_batch o parts ms) (message_debts ms) (λ _. 0)
  unfolding process_batch
  process_batch-Settles o parts ms =
      bind-Settles count (keep_new o parts ms) (dispatch_kept o parts) (message_debts ms)
        message_debts (λ _. 0) (keep_new-Settles o parts ms) (dispatch_kept-Settles o parts)

-- However the dispatcher, the publishers, the store and the broker answer, `process_batch`
-- acknowledges at most as often as the batch has messages with a handle, and by each handle at most as
-- often as the batch has messages with this handle; exactly as often, by each handle, where it returns
-- without an error. Duplicates and partial failures are counted too.
pub process_batch_settled :
    (o : Outside) (parts : Parts) (ms : List Message) (log : List Effect)
    → let x = process_batch o parts ms log in
      After every (settled every log) (message_debts every ms) (λ _. 0) x.0 x.1
      × ((i : ℕ)
          → After (only i) (settled (only i) log) (message_debts (only i) ms) (λ _. 0) x.0 x.1)
process_batch_settled o parts ms log =
    (process_batch-Settles every o parts ms log, λ i. process_batch-Settles (only i) o parts ms log)
