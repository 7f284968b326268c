-- ===== src/Transport/Retried.antt =====
-- Which errors a client tries again, of those that reach it as a gRPC status.
use flare_server_core.Prelude.{ℕ, ◌<◌, ◌≡◌, ◌↔◌, ◌⊎◌, true, leb, inl, inr, arith, Bool-cases}
use flare_server_core.Errors.Code.{ErrorCode, is_retryable}
use flare_server_core.Errors.Grpc.{map_error_code_to_grpc, deadline_exceeded}
use flare_server_core.Errors.Flare.{FlareError, localized, system, io, code_of, is_retryable_error}
use flare_server_core.Errors.Proto.{
  ErrorDetail, status_of, status_code, from_status, code_of_status, build_status,
}
use flare_server_core.Transport.{
  is_transient, should_retry_within, FixedRetryPolicy, ExponentialBackoffPolicy, fixed, exponential,
}

-- The status that an error becomes is of a code that is tried again exactly where the error that a
-- client reads from it says that it is retryable, or where this code is `DeadlineExceeded`.
is_transient-status_of :
    {B : Type 0} (encode : ErrorDetail → B) (e : FlareError) (now : ℕ)
    → (is_transient (status_code e) ≡ true) ↔ (
        (is_retryable_error (from_status (status_of encode e) now) ≡ true)
        ⊎ (status_code e ≡ deadline_exceeded))
unfolding is_transient from_status status_of is_retryable_error code_of map_error_code_to_grpc
    is_retryable
is_transient-status_of encode (localized c r d p t) now = same c
  where
    same :
        (c : ErrorCode)
        → let k = map_error_code_to_grpc c in
          (is_transient k ≡ true)
          ↔ ((is_retryable (code_of_status k) ≡ true) ⊎ (k ≡ deadline_exceeded))
    same ErrorCode.connection_failed = ground arith
    same _ = ground arith
is_transient-status_of encode (system msg) now = ground arith
is_transient-status_of encode (io msg) now = ground arith

should_retry_within-status_of :
    {B : Type 0} (encode : ErrorDetail → B) (max_attempts attempt : ℕ) (e : FlareError) (now : ℕ)
    → (should_retry_within max_attempts attempt (status_of encode e) ≡ true) ↔ (
        (attempt < max_attempts)
        × ((is_retryable_error (from_status (status_of encode e) now) ≡ true)
            ⊎ (status_code e ≡ deadline_exceeded)))
unfolding should_retry_within status_of build_status
should_retry_within-status_of encode m attempt e now =
    let same = is_transient-status_of encode e now in
    elim (Bool-cases (leb m attempt)) [
      | inl over ↦ ground (arith, over)
      | inr within ↦ ground (arith, within, same)
    ]

-- Both policies try an error that comes as a status again exactly before their last attempt, and
-- where the error that the client reads from the status says that it is retryable, or the code of the
-- status is `DeadlineExceeded`, although the error read is not retryable then.
pub should_retry-status_of :
    {B : Type 0} (encode : ErrorDetail → B) (p : FixedRetryPolicy) (q : ExponentialBackoffPolicy)
    (attempt : ℕ) (e : FlareError) (now : ℕ)
    → let error = status_of encode e in
      let wanted =
        (is_retryable_error (from_status error now) ≡ true) ⊎ (status_code e ≡ deadline_exceeded) in
      (((fixed p).should_retry attempt error ≡ true) ↔ ((attempt < p.max_attempts) × wanted))
      × (((exponential q).should_retry attempt error ≡ true)
          ↔ ((attempt < q.max_attempts) × wanted))
unfolding fixed exponential
should_retry-status_of encode p q attempt e now = (
  should_retry_within-status_of encode p.max_attempts attempt e now,
  should_retry_within-status_of encode q.max_attempts attempt e now,
)
