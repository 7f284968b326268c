-- ===== src/Runtime/Service.antt =====
-- flare-core-runtime/src/runtime.rs: a service from its start to its end. What the parts answer is
-- the environment's, and the calls of the runtime are a log in their order. A shutdown signal and
-- the failure of a health check end the wait in the same way.
pub mod Cleanup
mod Samples
use flare_server_core.Prelude.{
  Bool, true, false, Option, none, some, String, List, [], ◌∷◌, ◌++◌, Result, ok, err, format,
  if◌then◌else◌,
}

abbrev pub Answer : Type 0
Answer = Result {0, 0} Unit String

-- `drop_tasks` is the end of the join set where `?` returns with it: its tasks are aborted.
pub data Call : Type 0 where
  start_tasks wait_ready register start_monitor wait_shutdown : Call
  stop_monitor deregister stop_tasks drop_tasks : Call

-- How the parts answer: the start of the tasks, the wait until they are ready, the registration, with
-- a registry or without, the deregistration; and whether health checks are on.
pub record Environment : Type 0 where
  pub started : Answer
  pub ready : Answer
  pub registration : Result Bool String
  pub deregistration : Answer
  pub health_enabled : Bool

-- start_health_monitor, and the end of the monitor
monitor_calls : Bool → List Call
monitor_calls true = start_monitor ∷ wait_shutdown ∷ stop_monitor ∷ []
monitor_calls false = wait_shutdown ∷ []

-- A failed deregistration is only logged.
deregister_calls : Bool → List Call
deregister_calls true = deregister ∷ []
deregister_calls false = []

-- From the registration on; the tasks are ready.
unfoldable pub serve_registered : Environment → Result Bool String → List Call × Answer
unfolding monitor_calls deregister_calls
serve_registered e (err x) =
    (register ∷ stop_tasks ∷ [], err (format ("Service registration failed: " ∷ x ∷ [])))
serve_registered e (ok registry) = (
  register ∷ monitor_calls e.health_enabled ++ deregister_calls registry ++ stop_tasks ∷ [],
  ok tt,
)

serve : Environment → List Call × Answer
unfolding monitor_calls
serve e = (monitor_calls e.health_enabled ++ stop_tasks ∷ [], ok tt)

after_ready : Answer → List Call × Answer → List Call × Answer
after_ready (err x) rest =
    (wait_ready ∷ drop_tasks ∷ [], err (format ("Failed to wait for tasks ready: " ∷ x ∷ [])))
after_ready (ok _) (calls, r) = (wait_ready ∷ calls, r)

unfoldable pub after_start : Environment → Answer → List Call × Answer → List Call × Answer
unfolding after_ready
after_start e (err x) rest = (start_tasks ∷ [], err (format ("Failed to start tasks: " ∷ x ∷ [])))
after_start e (ok _) rest = let (calls, r) = after_ready e.ready rest in (start_tasks ∷ calls, r)

-- ServiceRuntime::run_with_signals
unfoldable pub run_with_signals : Environment → List Call × Answer
unfolding after_start serve
run_with_signals e = after_start e e.started (serve e)

-- ServiceRuntime::run_with_registration_and_signals, with the address of the service
unfoldable pub run_with_registration : Environment → Option String → List Call × Answer
unfolding after_start serve_registered
run_with_registration e none = (
  [],
  err (
      format (
        "Service address is required for service registration. "
        ∷ "Use `with_address()` to set the address." ∷ [])),
)
run_with_registration e (some address) = after_start e e.started (serve_registered e e.registration)
