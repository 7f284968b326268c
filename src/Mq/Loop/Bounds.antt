-- ===== src/Mq/Loop/Bounds.antt =====
-- How many tasks the loop of runtime.rs has at a time, and what it gives them.
use flare_server_core.Prelude.{
  ℕ, zero, suc, ◌+◌, ◌≤◌, ◌≡◌, refl, ap, subst, max, ◌||◌, ◌==◌, Option, none, some, List, [], ◌∷◌,
  ◌++◌, Result, ok, err, ltb, length, All, arith, Bool-cases, inl, inr,
}
use flare_server_core.Mq.Types.{Message, ConsumerError}
use flare_server_core.Mq.Ordered.{Fetched, fetch_batch, fetch_batch_lem}
use flare_server_core.Mq.Loop.{
  LoopConfig, Loop, new_loop, Fetch, nothing_there, fetch_error, message, LoopEvent, turn,
  task_done, shutdown, spawn_messages, spawn_fetched, fetch_turn, release_permit, loop_step,
  loop_run,
}

-- A task gets a message at least, and at most as many as a batch has.
abbrev pub IsSized : LoopConfig → List Message → Type 0
IsSized config ms = (1 ≤ length ms) × (length ms ≤ max config.batch_size 1)

record IsBounded (config : LoopConfig) (s : Loop) : Type 0 where
  held : s.permits + s.running ≡ max config.concurrency 1
  sized : All (IsSized config) s.given

-- A step that is not there is in order.
abbrev Bounded : LoopConfig → Option Loop → Type 0
Bounded config none = Unit
Bounded config (some s) = IsBounded config s

All-append :
    (P : List Message → Type 0) (xs : List (List Message)) (x : List Message)
    → All P xs
    → P x
    → All P (xs ++ x ∷ [])
All-append P [] x all_of p = (p, tt)
All-append P (y ∷ ys) x (q, all_of) p = (q, All-append P ys x all_of p)

spawn_fetched-Bounded :
    (config : LoopConfig) (s : Loop) (o : Option (Result (List Message) ConsumerError))
    → IsBounded config s
    → 1 ≤ s.permits
    → ((ms : List Message) → o ≡ some (ok ms) → IsSized config ms)
    → Bounded config (spawn_fetched s o)
unfolding spawn_fetched spawn_messages
spawn_fetched-Bounded config s none b free size = tt
spawn_fetched-Bounded config s (some (err e)) b free size = b
spawn_fetched-Bounded config s (some (ok ms)) b free size = record {
  held = omega (arith, b.held, free);
  sized = All-append (IsSized config) s.given ms b.sized (size ms refl);
}

fetched_size :
    (config : LoopConfig) (m : Message) (rest : List Fetched) (ms : List Message)
    → fetch_batch m (max config.batch_size 1) rest ≡ some (ok ms)
    → IsSized config ms
fetched_size config m rest ms e =
    let (same, small) = fetch_batch_lem m (max config.batch_size 1) rest ms e in
    (omega (arith, ap length same), omega (arith, small))

fetch_turn-Bounded :
    (config : LoopConfig) (s : Loop) (f : Fetch)
    → IsBounded config s
    → 1 ≤ s.permits
    → Bounded config (fetch_turn config s f)
unfolding fetch_turn
fetch_turn-Bounded config s nothing_there b free = b
fetch_turn-Bounded config s (fetch_error e) b free = b
fetch_turn-Bounded config s (message m rest) b free =
    elim (Bool-cases (ltb 1 (max config.batch_size 1))) [
      | inl several ↦
          rw several (spawn_fetched-Bounded config s _ b free (fetched_size config m rest))
      | inr single ↦ rw single (
          spawn_fetched-Bounded config s (some (ok (m ∷ []))) b free (λ ms e.
            let same : m ∷ [] ≡ ms = cc in
            (omega (arith, ap length same), omega (arith, ap length same))))
    ]

release_permit-Bounded :
    (config : LoopConfig) (s : Loop) (n : ℕ)
    → IsBounded config s
    → s.running ≡ n
    → Bounded config (release_permit s n)
unfolding release_permit
release_permit-Bounded config s zero b e = tt
release_permit-Bounded config s (suc n) b e = record {
  held = omega (arith, b.held, e);
  sized = b.sized;
}

loop_step-Bounded :
    (config : LoopConfig) (s : Loop) (e : LoopEvent)
    → IsBounded config s
    → Bounded config (loop_step config s e)
unfolding loop_step
loop_step-Bounded config s (turn f) b = elim (Bool-cases (s.stopped || s.permits == 0)) [
  | inl waits ↦ rw waits tt
  | inr goes ↦ rw goes (fetch_turn-Bounded config s f b (ground (arith, goes)))
]
loop_step-Bounded config s task_done b = release_permit-Bounded config s s.running b refl
loop_step-Bounded config s shutdown b = elim (Bool-cases s.stopped) [
  | inl over ↦ rw over tt
  | inr goes ↦ rw goes (record { held = b.held; sized = b.sized })
]

loop_run-Bounded :
    (config : LoopConfig) (es : List LoopEvent) (o : Option Loop)
    → Bounded config o
    → Bounded config (loop_run config o es)
unfolding loop_run
loop_run-Bounded config [] o b = b
loop_run-Bounded config (e ∷ es) none b = tt
loop_run-Bounded config (e ∷ es) (some s) b =
    loop_run-Bounded config es (loop_step config s e) (loop_step-Bounded config s e b)

-- After any turns, ends of tasks and a shutdown, in any order that the loop allows: at most
-- `concurrency` tasks run, or one where this is 0, and each task has been given at least one message
-- and at most `batch_size`, or one where this is 0.
pub loop_run-running :
    (config : LoopConfig) (es : List LoopEvent) (s : Loop)
    → loop_run config (some (new_loop config)) es ≡ some s
    → (s.running ≤ max config.concurrency 1) × All (IsSized config) s.given
unfolding new_loop
loop_run-running config es s ran =
    let start : IsBounded config (new_loop config) = record { held = omega arith; sized = tt } in
    let b =
      subst (Bounded config) ran (loop_run-Bounded config es (some (new_loop config)) start) in
    (omega (arith, b.held), b.sized)
