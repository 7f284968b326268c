-- ===== src/Runtime/Middleware.antt =====
-- flare-core-runtime/src/middleware/chain.rs: the hooks that run before and after a task. What a
-- middleware answers may depend on all calls that were made before, which are a log.
pub mod Order
mod Samples
use flare_server_core.Prelude.{
  ℕ, Bool, true, false, ◌||◌, List, [], ◌∷◌, ◌++◌, String, Result, ok, err, length, if◌then◌else◌,
}

pub data MiddlewareError : Type 0 where
  execution_failed chain_interrupted : (name reason : String) → MiddlewareError
  not_found : (name : String) → MiddlewareError

-- The result of a task, whose error is a text here.
abbrev pub TaskResult : Type 0
TaskResult = Result {0, 0} Unit String

-- A call of a hook, with the name of the middleware.
pub data Call : Type 0 where
  before_call : (name task_name : String) → Call
  after_call : (name task_name : String) → TaskResult → Call

-- The trait Middleware
pub record Middleware : Type 0 where
  pub name : String
  pub before : List Call → String → Result {0, 0} Unit MiddlewareError
  pub after : List Call → String → TaskResult → Result {0, 0} Unit MiddlewareError

pub record MiddlewareChain : Type 0 where
  pub middlewares : List Middleware

abbrev pub is_error : Result {0, 0} Unit MiddlewareError → Bool
is_error (err e) = true
is_error (ok done) = false

unfoldable pub new_chain : MiddlewareChain
new_chain = record { middlewares = [] }

unfoldable pub add : MiddlewareChain → Middleware → MiddlewareChain
add chain m = record { middlewares = chain.middlewares ++ m ∷ [] }

unfoldable pub middleware_count : MiddlewareChain → ℕ
middleware_count chain = length chain.middlewares

abbrev pub HookResult : Type 0
HookResult = Result {0, 0} Unit MiddlewareError × List Call

-- An error ends the chain; the rest of the loop is not used then.
unfoldable pub interrupt : Result {0, 0} Unit MiddlewareError → List Call → HookResult → HookResult
interrupt (err e) log rest = (err e, log)
interrupt (ok done) log rest = rest

unfoldable pub before_from : String → List Middleware → List Call → HookResult
unfolding interrupt
before_from task [] log = (ok tt, log)
before_from task (m ∷ ms) log =
    let log' = log ++ before_call m.name task ∷ [] in
    interrupt (m.before log task) log' (before_from task ms log')

-- MiddlewareChain::before
unfoldable pub before_all : MiddlewareChain → String → List Call → HookResult
unfolding before_from
before_all chain task log = before_from task chain.middlewares log

-- The loop of MiddlewareChain::after with `has_error`, which no error ends.
unfoldable pub after_from :
    String → TaskResult → List Middleware → Bool → List Call → Bool × List Call
after_from task result [] has_error log = (has_error, log)
after_from task result (m ∷ ms) has_error log =
    after_from task result ms (has_error || is_error (m.after log task result))
      (log ++ after_call m.name task result ∷ [])

abbrev pub chain_failed : MiddlewareError
chain_failed = execution_failed "middleware-chain" "One or more middlewares failed"

-- MiddlewareChain::after
unfoldable pub after_all : MiddlewareChain → String → TaskResult → List Call → HookResult
unfolding after_from
after_all chain task result log =
    let (has_error, called) = after_from task result chain.middlewares false log in
    (if has_error then err chain_failed else ok tt, called)
