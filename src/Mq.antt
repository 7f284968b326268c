-- ===== src/Mq.antt =====
-- flare-core-messaging/src/mq/consumer: consuming messages of a broker.
pub mod Types
pub mod Failure
pub mod Retries
pub mod Dispatcher
pub mod Patterns
pub mod Dispatching
pub mod Ordered
pub mod Effects
pub mod Consumer
pub mod Idempotency
pub mod Settled
pub mod Batches
pub mod Loop
mod Samples
