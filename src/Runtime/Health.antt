-- ===== src/Runtime/Health.antt =====
-- flare-core-runtime/src/health/checker.rs, and the default check of runtime.rs. What a check answers
-- is an argument. The calls of the failure callback are a log, oldest first, and a check's count of
-- failures is a `u32`.
pub mod Streaks
mod Samples
use flare_server_core.Prelude.{
  ℕ, ◌+◌, ◌%◌, ◌^◌, Bool, true, false, ◌&&◌, Option, none, some, String, List, [], ◌∷◌, ◌++◌,
  Result, ok, err, all, leb, StringMap, get, insert, unwrap_or, length, if◌then◌else◌,
}
use flare_server_core.Runtime.Tracker.{StateTracker, has_failures, get_failed_tasks}

-- The answer of a health check: nothing, or an error.
abbrev pub CheckAnswer : Type 0
CheckAnswer = Result {0, 0} Unit String

pub record HealthCheckResult : Type 0 where
  pub name : String
  pub healthy : Bool
  pub error : Option String

-- `on_failure` tells whether there is a callback.
pub record HealthChecker : Type 0 where
  pub checks : List String
  pub failure_counts : StringMap ℕ
  pub failure_threshold : ℕ
  pub on_failure : Bool
  pub called : List String

-- HealthChecker::new
unfoldable pub new_checker : HealthChecker
new_checker = record {
  checks = [];
  failure_counts = [];
  failure_threshold = 3;
  on_failure = false;
  called = [];
}

-- HealthChecker::with_failure_threshold
unfoldable pub with_failure_threshold : HealthChecker → ℕ → HealthChecker
with_failure_threshold c threshold = record c { failure_threshold = threshold }

-- HealthChecker::with_on_failure
unfoldable pub with_on_failure : HealthChecker → HealthChecker
with_on_failure c = record c { on_failure = true }

-- HealthChecker::add_check
unfoldable pub add_check : HealthChecker → String → HealthChecker
add_check c name = record c { checks = c.checks ++ name ∷ [] }

-- HealthChecker::check_count
unfoldable pub check_count : HealthChecker → ℕ
check_count c = length c.checks

-- `*count += 1` on the entry of the check.
unfoldable pub next_count : StringMap ℕ → String → ℕ
next_count counts name = (unwrap_or 0 (get name counts) + 1) % 2 ^ 32

unfoldable pub count_failure : HealthChecker → String → HealthChecker
unfolding next_count
count_failure c name =
    let count = next_count c.failure_counts name in
    record c {
      failure_counts = insert name count c.failure_counts;
      called =
          if leb c.failure_threshold count && c.on_failure then c.called ++ name ∷ [] else c.called;
    }

-- HealthChecker::check_one
unfoldable pub check_one : HealthChecker → String → CheckAnswer → HealthChecker × HealthCheckResult
unfolding count_failure
check_one c name (ok _) = (
  record c { failure_counts = insert name 0 c.failure_counts },
  record { name = name; healthy = true; error = none },
)
check_one c name (err e) =
    (count_failure c name, record { name = name; healthy = false; error = some e })

-- HealthChecker::check_all, each check with its answer
unfoldable pub check_all :
    HealthChecker → List (String × CheckAnswer) → HealthChecker × List HealthCheckResult
unfolding check_one
check_all c [] = (c, [])
check_all c ((name, answer) ∷ rest) =
    let (c1, r) = check_one c name answer in let (c2, rs) = check_all c1 rest in (c2, r ∷ rs)

-- HealthChecker::is_healthy
unfoldable pub is_healthy : HealthChecker → List (String × CheckAnswer) → HealthChecker × Bool
unfolding check_all
is_healthy c answers = let (c1, results) = check_all c answers in (c1, all (λ r. r.healthy) results)

-- Rounds of checks, as the health monitor of runtime.rs calls them.
unfoldable pub check_rounds : HealthChecker → List (List (String × CheckAnswer)) → HealthChecker
unfolding check_all
check_rounds c [] = c
check_rounds c (round ∷ rounds) = check_rounds (check_all c round).0 rounds

-- TaskFailureHealthCheck::check; the error has the names of the failed tasks
unfoldable pub check_tasks : StateTracker → Result {0, 0} Unit (List String)
unfolding has_failures get_failed_tasks
check_tasks t = if has_failures t then err (get_failed_tasks t) else ok tt
