-- ===== src/Mq/Loop/Samples.antt =====
-- Two tasks at a time, for the loop of runtime.rs.
use flare_server_core.Prelude.{◌≤◌, ◌≡◌, refl, max, none, some, List, [], ◌∷◌, All}
use flare_server_core.Prelude.Int.{pos}
use flare_server_core.Mq.Types.{Message, raw}
use flare_server_core.Mq.Ordered.{fetched, timed_out, fetch_more}
use flare_server_core.Mq.Loop.{
  LoopConfig, Loop, new_loop, message, nothing_there, LoopEvent, turn, task_done, shutdown,
  loop_run,
}
use flare_server_core.Mq.Loop.Bounds.{IsSized, loop_run-running}

abbrev order : Message
order = record {
  payload = 1 ∷ [];
  content_type = raw;
  context = record {
    message_id = "m-1";
    topic = "orders";
    partition = pos 0;
    offset = pos 12;
    key = none;
    headers = [];
    started_at = 0;
    retry_count = 0;
    metadata = [];
  };
  ack_handle = some 7;
}

abbrev config : LoopConfig
config = record { concurrency = 2; batch_size = 3 }

abbrev events : List LoopEvent
events =
    turn (message order (fetched order ∷ timed_out ∷ []))
    ∷ turn nothing_there
    ∷ turn (message order (timed_out ∷ []))
    ∷ task_done
    ∷ shutdown
    ∷ []

reached : (s : Loop) × (loop_run config (some (new_loop config)) events ≡ some s)
unfolding loop_run new_loop fetch_more
reached = (_, refl)

loop_run-running_example : (reached.0.running ≤ max 2 1) × All (IsSized config) reached.0.given
loop_run-running_example = loop_run-running config events reached.0 reached.1
