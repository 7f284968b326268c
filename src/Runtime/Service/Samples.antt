-- ===== src/Runtime/Service/Samples.antt =====
-- A registered service with health checks, for runtime.rs.
use flare_server_core.Prelude.{◌≡◌, refl, true, some, [], ◌∷◌, ok, err}
use flare_server_core.Runtime.Service.{
  Environment, start_tasks, wait_ready, register, start_monitor, wait_shutdown, stop_monitor,
  deregister, stop_tasks, drop_tasks, run_with_signals, run_with_registration,
}

abbrev environment : Environment
environment = record {
  started = ok tt;
  ready = ok tt;
  registration = ok true;
  deregistration = err "registry unreachable";
  health_enabled = true;
}

run-environment : run_with_registration environment (some "10.0.0.1:80") ≡ (
  start_tasks ∷ wait_ready ∷ register ∷ start_monitor ∷ wait_shutdown ∷ stop_monitor ∷ deregister
      ∷ stop_tasks ∷ [],
  ok tt,
)
unfolding run_with_registration
run-environment = refl

unready :
    run_with_signals (record environment { ready = err "timeout" })
    ≡ (start_tasks ∷ wait_ready ∷ drop_tasks ∷ [], err "Failed to wait for tasks ready: timeout")
unfolding run_with_signals
unready = refl
