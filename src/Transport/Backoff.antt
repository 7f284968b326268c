-- ===== src/Transport/Backoff.antt =====
-- The delays of the exponential policy of flare-core-transport/src/grpc/retry/exponential.rs.
use native.Mathlib.Nat.{mod-eq_of_lt, pow-le-pow_right, mul-le-mul_left, min-le_right}
use flare_server_core.Prelude.{ℕ, ◌*◌, ◌+◌, ◌/◌, ◌%◌, ◌^◌, ◌≤◌, ◌<◌, min, ◌≡◌, ap, sym, ◌∙◌, arith}
use flare_server_core.Transport.{
  ExponentialBackoffPolicy, as_millis, from_millis, exponential_backoff,
}

-- The product fits in 64 bits for every attempt.
abbrev pub Fits : ExponentialBackoffPolicy → Type 0
Fits p = as_millis p.base_delay * 2 ^ 10 < 2 ^ 64

product_fits : (m k : ℕ) → m * 2 ^ 10 < 2 ^ 64 → k ≤ 10 → m % 2 ^ 64 * 2 ^ k % 2 ^ 64 ≡ m * 2 ^ k
product_fits m k fits small =
    let below : m * 2 ^ k ≤ m * 2 ^ 10 = mul-le-mul_left m (pow-le-pow_right (omega arith) small) in
    let same : m % 2 ^ 64 ≡ m = mod-eq_of_lt (omega (arith, fits)) in
    ap (λ x. x * 2 ^ k % 2 ^ 64) same ∙ mod-eq_of_lt (omega (arith, below, fits))

exponential_backoff-Fits :
    (p : ExponentialBackoffPolicy) (attempt : ℕ)
    → Fits p
    → exponential_backoff p attempt
      ≡ min (as_millis p.base_delay * 2 ^ min attempt 10 * 1000000) p.max_delay
unfolding exponential_backoff from_millis
exponential_backoff-Fits p attempt fits =
    ap (λ ms. min (ms * 1000000) p.max_delay)
      (product_fits (as_millis p.base_delay) (min attempt 10) fits (min-le_right attempt 10))

-- Where the delay in milliseconds, times 1024, fits in 64 bits: a later attempt never waits less,
-- none waits more than `max_delay`, the first waits `base_delay` without its part of a millisecond
-- unless `max_delay` is less, and every attempt from the tenth on waits as long as the tenth.
pub exponential_backoff-grows :
    (p : ExponentialBackoffPolicy) (a b : ℕ)
    → Fits p
    → a ≤ b
    → (exponential_backoff p a ≤ exponential_backoff p b)
      × (exponential_backoff p b ≤ p.max_delay)
      × (exponential_backoff p 0 ≡ min (p.base_delay / 1000000 * 1000000) p.max_delay)
      × (exponential_backoff p (10 + a) ≡ exponential_backoff p 10)
unfolding as_millis
exponential_backoff-grows p a b fits before =
    let delay = exponential_backoff-Fits p in
    let powers : 2 ^ min a 10 ≤ 2 ^ min b 10 =
      pow-le-pow_right (omega arith) (omega (arith, before)) in
    let longer = mul-le-mul_left (as_millis p.base_delay) powers in
    let tenth : min (10 + a) 10 ≡ 10 = omega arith in
    (
      omega (arith, delay a fits, delay b fits, longer),
      omega (arith, delay b fits),
      omega (arith, delay 0 fits),
      delay (10 + a) fits
          ∙ ap (λ k. min (as_millis p.base_delay * 2 ^ k * 1000000) p.max_delay) tenth
          ∙ sym (delay 10 fits),
    )
