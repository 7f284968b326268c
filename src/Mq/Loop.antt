-- ===== src/Mq/Loop.antt =====
-- The loop of runtime.rs that fetches messages and spawns tasks, up to the shutdown: `run` and
-- `run_with_shutdown`. A task holds a permit of the semaphore until it is done. The fetches of a turn
-- and the ends of the tasks are events, in any order; a turn waits for a permit.
pub mod Bounds
mod Samples
use flare_server_core.Prelude.{
  ℕ, zero, suc, ◌+◌, ◌-◌, max, Bool, true, false, ◌||◌, ◌==◌, Option, none, some, List, [], ◌∷◌,
  ◌++◌, Result, ok, err, ltb, if◌then◌else◌,
}
use flare_server_core.Mq.Types.{Message, ConsumerError}
use flare_server_core.Mq.Ordered.{Fetched, fetch_batch}

-- ConsumerConfig, as far as the loop reads it
pub record LoopConfig : Type 0 where
  pub concurrency : ℕ
  pub batch_size : ℕ

-- The permits that are free, the tasks that hold one, and the messages given to tasks.
pub record Loop : Type 0 where
  pub permits : ℕ
  pub running : ℕ
  pub given : List (List Message)
  pub stopped : Bool

-- The semaphore has at least one permit.
unfoldable pub new_loop : LoopConfig → Loop
new_loop config = record {
  permits = max config.concurrency 1;
  running = 0;
  given = [];
  stopped = false;
}

-- What the fetch of a turn gives; a message comes with the fetches that follow it for its batch.
pub data Fetch : Type 0 where
  nothing_there : Fetch
  fetch_error : ConsumerError → Fetch
  message : Message → List Fetched → Fetch

pub data LoopEvent : Type 0 where
  turn : Fetch → LoopEvent
  task_done shutdown : LoopEvent

-- spawn_message_task and spawn_batch_task: the task owns the permit.
unfoldable pub spawn_messages : Loop → List Message → Loop
spawn_messages s messages = record s {
  permits = s.permits - 1;
  running = s.running + 1;
  given = s.given ++ messages ∷ [];
}

-- A batch that is not full waits for more fetches, and a failed one gives its permit back.
unfoldable pub spawn_fetched : Loop → Option (Result (List Message) ConsumerError) → Option Loop
unfolding spawn_messages
spawn_fetched s none = none
spawn_fetched s (some (ok messages)) = some (spawn_messages s messages)
spawn_fetched s (some (err e)) = some s

unfoldable pub fetch_turn : LoopConfig → Loop → Fetch → Option Loop
unfolding spawn_fetched fetch_batch
fetch_turn config s nothing_there = some s
fetch_turn config s (fetch_error e) = some s
fetch_turn config s (message m rest) =
    if ltb 1 (max config.batch_size 1)
    then spawn_fetched s (fetch_batch m (max config.batch_size 1) rest)
    else spawn_fetched s (some (ok (m ∷ [])))

-- A task that ends, the last thing it does being to drop its permit.
unfoldable pub release_permit : Loop → ℕ → Option Loop
release_permit s zero = none
release_permit s (suc n) = some (record s { running = n; permits = s.permits + 1 })

-- ConsumerRuntime::run_with_shutdown, one event
unfoldable pub loop_step : LoopConfig → Loop → LoopEvent → Option Loop
unfolding fetch_turn release_permit
loop_step config s (turn f) = if s.stopped || s.permits == 0 then none else fetch_turn config s f
loop_step config s task_done = release_permit s s.running
loop_step config s shutdown = if s.stopped then none else some (record s { stopped = true })

-- All events; `run` is the same loop where no event is a shutdown.
unfoldable pub loop_run : LoopConfig → Option Loop → List LoopEvent → Option Loop
unfolding loop_step
loop_run config s [] = s
loop_run config none (e ∷ es) = none
loop_run config (some s) (e ∷ es) = loop_run config (loop_step config s e) es
