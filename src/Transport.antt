-- ===== src/Transport.antt =====
-- flare-core-transport/src/grpc/retry: when a gRPC call is tried again, and after which delay. A
-- Duration is its nanoseconds, and a policy is a record of the operations of the trait.
pub mod Backoff
pub mod Retried
mod Samples
use flare_server_core.Prelude.{
  ℕ, ◌*◌, ◌/◌, ◌%◌, ◌^◌, min, Bool, true, false, ◌&&◌, not, leb, ltb, if◌then◌else◌,
}
use flare_server_core.Errors.Grpc.{Code, deadline_exceeded, code_resource_exhausted, unavailable}
use flare_server_core.Errors.Proto.{Status}

-- The trait RetryPolicy
pub record RetryPolicy (B : Type 0) : Type 0 where
  pub should_retry : ℕ → Status B → Bool
  pub backoff_duration : ℕ → ℕ
  pub max_attempts : ℕ

pub record FixedRetryPolicy : Type 0 where
  pub max_attempts : ℕ
  pub delay : ℕ

pub record ExponentialBackoffPolicy : Type 0 where
  pub max_attempts : ℕ
  pub base_delay : ℕ
  pub max_delay : ℕ

-- The codes that both policies try again.
unfoldable pub is_transient : Code → Bool
is_transient unavailable = true
is_transient deadline_exceeded = true
is_transient code_resource_exhausted = true
is_transient _ = false

-- FixedRetryPolicy::should_retry, and the same of ExponentialBackoffPolicy
unfoldable pub should_retry_within : {B : Type 0} → ℕ → ℕ → Status B → Bool
unfolding is_transient
should_retry_within max_attempts attempt error =
    if leb max_attempts attempt then false else is_transient error.code

-- Duration::as_millis and Duration::from_millis
unfoldable pub as_millis : ℕ → ℕ
as_millis d = d / 1000000

unfoldable pub from_millis : ℕ → ℕ
from_millis ms = ms * 1000000

-- ExponentialBackoffPolicy::backoff_duration, which multiplies 64-bit numbers: a product that is too
-- large wraps.
unfoldable pub exponential_backoff : ExponentialBackoffPolicy → ℕ → ℕ
unfolding as_millis from_millis
exponential_backoff p attempt =
    let delay_ms = as_millis p.base_delay % 2 ^ 64 * 2 ^ min attempt 10 % 2 ^ 64 in
    min (from_millis delay_ms) p.max_delay

-- impl RetryPolicy for FixedRetryPolicy
unfoldable pub fixed : {B : Type 0} → FixedRetryPolicy → RetryPolicy B
unfolding should_retry_within
fixed p = record {
  should_retry = should_retry_within p.max_attempts;
  backoff_duration = λ attempt. p.delay;
  max_attempts = p.max_attempts;
}

-- impl RetryPolicy for ExponentialBackoffPolicy
unfoldable pub exponential : {B : Type 0} → ExponentialBackoffPolicy → RetryPolicy B
unfolding should_retry_within exponential_backoff
exponential p = record {
  should_retry = should_retry_within p.max_attempts;
  backoff_duration = exponential_backoff p;
  max_attempts = p.max_attempts;
}
