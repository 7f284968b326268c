-- ===== src/Lib.antt =====
-- Verification of flare-server-core.
--
-- flare-server-core is a set of Rust crates on which services are built. Modelled here:
--
-- * Id (flare-core-base/src/id/snowflake.rs): the generator of 64-bit identifiers.
--   Id/Snowflake.antt holds the generator, its state and every branch of `next_id`; Layout is the
--   packing of the fields, Calls one call, Unique a sequence of calls. The readings of the system
--   clock are a list: a reading is a time in milliseconds or a failure. The loop that waits for the
--   next millisecond recurses on the list, so that a clock which never passes the last timestamp
--   gives no result.
-- * Runtime (flare-core-runtime/src): the tasks of a service. TaskState is the state machine of
--   task/state.rs. Tracker is state/tracker.rs with state/event.rs: the map of tasks, and the
--   events sent as a log in place of the broadcast channel. Topology is utils/topology.rs, the sort
--   of the tasks by their dependencies; its queue loop runs on fuel, one more than the roots and
--   the sum of the counts: each turn takes one name off the queue, and a name comes in as a root or
--   when one of the counts goes down. The order in which a hash map is walked is a parameter, any
--   reordering of its entries.
-- * Errors (flare-core-base/src/error): Code, Numbers and Names are code.rs; Flare is
--   flare_error.rs, localized.rs and builder.rs; Grpc and Proto are grpc.rs, proto.rs and the
--   conversion from a status in conversions.rs. The bytes of a detail are prost's: encoder and
--   decoder are parameters.
-- * Mq (flare-core-messaging/src/mq/consumer): consuming messages. Types is types.rs, Failure is
--   failure.rs, Dispatcher is dispatcher.rs with handler.rs, and Consumer is the processing of a
--   message and of a batch in runtime.rs; Ordered fills a batch and groups it by key; Loop is the
--   loop that fetches and spawns. Effects is the world outside: the dispatcher, the publishers, the
--   store of consumed keys and the handles of the broker answer each call by the calls made before,
--   in any way, and the calls are a log. Settled and Batches count acknowledgements, Idempotency
--   follows a message that comes twice, Retries one that comes again; Patterns and Dispatching are
--   about the handlers found. The runtime uses Dispatcher through the trait only, so that Outside has
--   functions for it.
-- * Runtime/Manager (flare-core-runtime/src/task/manager.rs): the manager of the tasks, over Tracker
--   and Topology. Sorted is `sort_tasks`. The run of `start_all` is a list of steps: the loop spawns
--   its next task, a task is polled first, a future is done; each step stands where the code allows
--   it, so that a list is one interleaving of the loop and the tasks. Phases says what the tracker
--   shows of a task, Runs follows the steps.
-- * Runtime/Health (flare-core-runtime/src/health/checker.rs): the health checker; a check's answers
--   are arguments and the calls of its callback are a log. Streaks compares its counts with the
--   failures in a row.
-- * Runtime/Service (flare-core-runtime/src/runtime.rs): the run of a service with and without
--   registration, as the calls to its parts in their order; what they answer is the environment.
--   Cleanup says what each call needs and leaves.
-- * Runtime/Middleware (flare-core-runtime/src/middleware): the chain of hooks around a task. The
--   answers of a middleware depend on the log of calls; Order says which hooks run.
-- * Context (flare-core-base/src/context, flare-core-base/src/utils/context.rs): the context of a
--   request. Codec is the encoding as a map of texts, Headers what it writes, Restored and Actors
--   what comes back, Deadlines the deadline of derived contexts. Tokens of cancellation are a type
--   parameter with `child_token`; what is asked of a new token is a value, a Timer.
-- * Discovery (flare-core-transport/src/discovery): Instance is instance.rs with the tag filters,
--   Discovery.antt is discover.rs: the table of instances, the cache of channels, and the changes sent
--   to the balancer as a log. The channel is bounded: how many changes have been received when a send
--   goes on is an argument, and a send that finds no room waits for ever, which is `none`. The
--   backend's answers are arguments and the making of a channel is the function `connect`. Unbounded
--   is the reference where no send waits, Waits compares the two. Channels replays the log, Entries
--   and Refreshes follow one instance and one turn of the refresh loop, Routing is the specification,
--   whose state is the last good answer.
-- * Auth (flare-core-infra/src/auth): Scopes is principal.rs, Auth.antt is token.rs, composite.rs and
--   provider.rs, Sessions a token from its issue on. The codec of the tokens and the answers of the
--   store are parameters.
-- * Transport (flare-core-transport/src/grpc/retry): the retry policies of gRPC calls, a record for
--   the trait. Backoff is about the delays, Retried about the errors that come as a status.
--
-- Prelude has what the parts share: Boolean tests, lists, maps (association lists without two
-- entries of a key), results, bits, signed numbers and decimal texts. Machine integers are ℕ with
-- their wrap-around written out. Times and durations are counted in nanoseconds or milliseconds.
-- Async code is modelled by its effects in the order of the code; locks are held for one operation.
--
-- Not modelled: network clients and servers (gRPC, HTTP, Kafka, NATS, Consul, etcd, Redis),
-- telemetry, metrics and signals, which pass on to other packages; plugins, the
-- event buses and the reading of the configuration.
mod Prelude
pub mod Id
pub mod Runtime
pub mod Errors
pub mod Mq
pub mod Discovery
pub mod Context
pub mod Auth
pub mod Transport
