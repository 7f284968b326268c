-- ===== src/Transport/Samples.antt =====
-- A policy of three attempts, 100 ms at first, and an error that is refused for its rate.
use flare_server_core.Prelude.{◌*◌, ◌+◌, ◌/◌, ◌≤◌, ◌<◌, min, ◌≡◌, ◌↔◌, ◌⊎◌, refl, true, none, arith}
use flare_server_core.Errors.Code.{message_rate_limit_exceeded}
use flare_server_core.Errors.Grpc.{deadline_exceeded}
use flare_server_core.Errors.Flare.{FlareError, localized, is_retryable_error}
use flare_server_core.Errors.Proto.{ErrorDetail, status_of, status_code, from_status}
use flare_server_core.Transport.{
  FixedRetryPolicy, ExponentialBackoffPolicy, as_millis, fixed, exponential, exponential_backoff,
}
use flare_server_core.Transport.Backoff.{Fits, exponential_backoff-grows}
use flare_server_core.Transport.Retried.{should_retry-status_of}

abbrev slower : ExponentialBackoffPolicy
slower = record { max_attempts = 3; base_delay = 100000000; max_delay = 1000000000 }

abbrev steady : FixedRetryPolicy
steady = record { max_attempts = 3; delay = 250000000 }

abbrev refused : FlareError
refused = localized message_rate_limit_exceeded "slow down" none none 5

-- 100 ms, 200 ms, 800 ms and then a second at most; half a millisecond is no delay at all.
delays :
    (exponential_backoff slower 1 ≡ 200000000)
    × (exponential_backoff slower 3 ≡ 800000000)
    × (exponential_backoff slower 4 ≡ 1000000000)
    × (exponential_backoff (record slower { base_delay = 500000 }) 9 ≡ 0)
unfolding exponential_backoff
delays = (refl, refl, refl, refl)

exponential_backoff-grows_example :
    (exponential_backoff slower 2 ≤ exponential_backoff slower 4)
    × (exponential_backoff slower 4 ≤ 1000000000)
    × (exponential_backoff slower 0 ≡ min (100000000 / 1000000 * 1000000) 1000000000)
    × (exponential_backoff slower (10 + 2) ≡ exponential_backoff slower 10)
unfolding as_millis
exponential_backoff-grows_example = exponential_backoff-grows slower 2 4 slower_fits (omega arith)
  where
    slower_fits : Fits slower
    slower_fits = omega arith

should_retry-status_of_example :
    let error = status_of (λ (d : ErrorDetail). d) refused in
    let wanted =
      (is_retryable_error (from_status error 9) ≡ true)
      ⊎ (status_code refused ≡ deadline_exceeded) in
    (((fixed steady).should_retry 2 error ≡ true) ↔ ((2 < 3) × wanted))
    × (((exponential slower).should_retry 2 error ≡ true) ↔ ((2 < 3) × wanted))
should_retry-status_of_example =
    should_retry-status_of (λ (d : ErrorDetail). d) steady slower 2 refused 9
