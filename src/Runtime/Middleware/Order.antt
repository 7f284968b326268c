-- ===== src/Runtime/Middleware/Order.antt =====
-- Which hooks of flare-core-runtime/src/middleware/chain.rs run, in which order, and what the chain
-- answers.
use mathlib.Core.List.{append-nil, append_assoc}
use flare_server_core.Prelude.{
  Bool, true, false, ◌||◌, List, [], ◌∷◌, ◌++◌, map, String, Result, ok, err, ◌≡◌, refl, sym, ap,
  ◌∙◌, ◌↔◌, ◌⊎◌, inl, inr, arith, Bool-cases,
}
use flare_server_core.Runtime.Middleware.{
  Middleware, MiddlewareChain, MiddlewareError, Call, before_call, after_call, TaskResult,
  HookResult, interrupt, before_from, before_all, is_error, after_from, after_all, chain_failed,
}

-- The calls of the hooks of these middlewares, in order.
abbrev pub befores : String → List Middleware → List Call
befores task ms = map (λ (m : Middleware). before_call m.name task) ms

abbrev pub afters : String → TaskResult → List Middleware → List Call
afters task result ms = map (λ (m : Middleware). after_call m.name task result) ms

-- Each answers `Ok`, where those before it have been called.
abbrev pub Passes : String → List Middleware → List Call → Type 0
Passes task [] log = Unit
Passes task (m ∷ ms) log =
    (m.before log task ≡ ok tt) × Passes task ms (log ++ before_call m.name task ∷ [])

-- The first of the middlewares that answers an error, all before it having been called.
pub record Stop (task : String) (ms : List Middleware) (log : List Call) (r : HookResult)
    : Type 0 where
  pub passed : List Middleware
  pub failed : Middleware
  pub left : List Middleware
  pub reason : MiddlewareError
  pub split : ms ≡ passed ++ failed ∷ left
  pub passes : Passes task passed log
  pub refuses : failed.before (log ++ befores task passed) task ≡ err reason
  pub answer : r ≡ (err reason, log ++ befores task (passed ++ failed ∷ []))

-- All hooks have run and answered `Ok`, or the chain has stopped at the first error.
abbrev pub Ended : String → List Middleware → List Call → HookResult → Type 0
Ended task ms log r =
    (Passes task ms log × (r ≡ (ok tt, log ++ befores task ms))) ⊎ Stop task ms log r

snoc_calls : (log : List Call) (c : Call) (cs : List Call) → (log ++ c ∷ []) ++ cs ≡ log ++ c ∷ cs
snoc_calls log c cs = append_assoc log (c ∷ []) cs

step_Ended :
    (task : String) (m : Middleware) (ms : List Middleware) (log : List Call) (r : HookResult)
    → m.before log task ≡ ok tt
    → Ended task ms (log ++ before_call m.name task ∷ []) r
    → Ended task (m ∷ ms) log r
step_Ended task m ms log r fine (inl (rest, done)) =
    inl ((fine, rest), done ∙ ap (λ cs. (ok tt, cs)) (snoc_calls log _ (befores task ms)))
step_Ended task m ms log r fine (inr s) = inr (record {
  passed = m ∷ s.passed;
  failed = s.failed;
  left = s.left;
  reason = s.reason;
  split = ap (λ xs. m ∷ xs) s.split;
  passes = (fine, s.passes);
  refuses =
      ap (λ cs. s.failed.before cs task) (sym (snoc_calls log _ (befores task s.passed)))
      ∙ s.refuses;
  answer =
      s.answer
      ∙ ap (λ cs. (err s.reason, cs)) (snoc_calls log _ (befores task (s.passed ++ s.failed ∷ [])));
})

before_from-Ended :
    (task : String) (ms : List Middleware) (log : List Call)
    → Ended task ms log (before_from task ms log)
unfolding before_from
before_from-Ended task [] log = inl (tt, ap (λ cs. (ok tt, cs)) (sym (append-nil log)))
before_from-Ended task (m ∷ ms) log =
    answered (m.before log task) refl
      (before_from-Ended task ms (log ++ before_call m.name task ∷ []))
  where
    answered :
        (a : Result {0, 0} Unit MiddlewareError)
        → m.before log task ≡ a
        → Ended task ms
            (log ++ before_call m.name task ∷ [])
            (before_from task ms (log ++ before_call m.name task ∷ []))
        → Ended task (m ∷ ms) log (
            interrupt a
              (log ++ before_call m.name task ∷ [])
              (before_from task ms (log ++ before_call m.name task ∷ [])))
    answered (ok tt) e rest = step_Ended task m ms log _ e rest
    answered (err why) e rest = inr (record {
      passed = [];
      failed = m;
      left = ms;
      reason = why;
      split = refl;
      passes = tt;
      refuses = ap (λ cs. m.before cs task) (append-nil log) ∙ e;
      answer = refl;
    })

-- One of the `after` hooks answers an error, where all hooks before it have been called.
abbrev pub Fails : String → TaskResult → List Middleware → List Call → Type 0
Fails task result [] log = ⊥
Fails task result (m ∷ ms) log =
    (is_error (m.after log task result) ≡ true)
    ⊎ Fails task result ms (log ++ after_call m.name task result ∷ [])

or_iff :
    {P Q : Type 0} (b c : Bool) → P ↔ ((b || c ≡ true) ⊎ Q) → P ↔ ((b ≡ true) ⊎ ((c ≡ true) ⊎ Q))
or_iff true true h = ground (arith, h)
or_iff true false h = ground (arith, h)
or_iff false true h = ground (arith, h)
or_iff false false h = ground (arith, h)

module _ (task : String) (result : TaskResult) where
  after_from-afters :
      (ms : List Middleware) (b : Bool) (log : List Call)
      → (after_from task result ms b log).1 ≡ log ++ afters task result ms
  unfolding after_from
  after_from-afters [] b log = sym (append-nil log)
  after_from-afters (m ∷ ms) b log =
      after_from-afters ms (b || is_error (m.after log task result)) _
      ∙ snoc_calls log _ (afters task result ms)

  after_from-Fails :
      (ms : List Middleware) (b : Bool) (log : List Call)
      → ((after_from task result ms b log).0 ≡ true) ↔ ((b ≡ true) ⊎ Fails task result ms log)
  unfolding after_from
  after_from-Fails [] b log = ground arith
  after_from-Fails (m ∷ ms) b log =
      let later =
        after_from-Fails ms (b || is_error (m.after log task result))
          (log ++ after_call m.name task result ∷ []) in
      or_iff b (is_error (m.after log task result)) later

-- `before` calls the hooks in the order in which the middlewares were added, up to the first that
-- answers an error, whose error it answers, or, where none does, all of them, and answers `Ok`.
-- `after` calls all of them in this order, whatever they answer, and answers the error of the chain
-- exactly where one of them answers an error, and `Ok` otherwise.
pub before_all-after_all :
    (chain : MiddlewareChain) (task : String) (result : TaskResult) (log : List Call)
    → Ended task chain.middlewares log (before_all chain task log)
      × ((after_all chain task result log).1 ≡ log ++ afters task result chain.middlewares)
      × (((after_all chain task result log).0 ≡ err chain_failed)
            × Fails task result chain.middlewares log
          ⊎ ((after_all chain task result log).0 ≡ ok tt)
            × (¬ Fails task result chain.middlewares log))
unfolding before_all after_all
before_all-after_all chain task result log =
    let fails = after_from-Fails task result chain.middlewares false log in
    (
      before_from-Ended task chain.middlewares log,
      after_from-afters task result chain.middlewares false log,
      elim (Bool-cases (after_from task result chain.middlewares false log).0) [
        | inl some_error ↦ rw some_error (inl (refl, ground (arith, fails, some_error)))
        | inr no_error ↦ rw no_error (inr (refl, ground (arith, fails, no_error)))
      ],
    )
