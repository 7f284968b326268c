-- ===== src/Runtime/Middleware/Samples.antt =====
-- A chain of three, of which the second refuses every task.
use flare_server_core.Prelude.{[], ◌∷◌, ◌++◌, ◌≡◌, refl, ◌⊎◌, ok, err, length}
use flare_server_core.Runtime.Middleware.{
  Middleware, MiddlewareChain, new_chain, add, middleware_count, execution_failed, before_call,
  before_all, after_all, chain_failed,
}
use flare_server_core.Runtime.Middleware.Order.{afters, Fails, Ended, before_all-after_all}

abbrev tracing : Middleware
tracing = record { name = "tracing"; before = λ log task. ok tt; after = λ log task result. ok tt }

abbrev quota : Middleware
quota = record {
  name = "quota";
  before = λ log task. err (execution_failed "quota" "exceeded");
  after = λ log task result. ok tt;
}

abbrev audit : Middleware
audit = record {
  name = "audit";
  before = λ log task. ok tt;
  after = λ log task result. err (execution_failed "audit" "no disk");
}

abbrev chain : MiddlewareChain
chain = add (add (add new_chain tracing) quota) audit

-- `before` stops at the quota, `after` calls all three.
stops :
    (before_all chain "sync" [] ≡ (
      err (execution_failed "quota" "exceeded"),
      before_call "tracing" "sync" ∷ before_call "quota" "sync" ∷ [],
    ))
    × (length (after_all chain "sync" (ok tt) []).1 ≡ middleware_count chain)
unfolding before_all after_all add new_chain middleware_count
stops = (refl, refl)

before_all-after_all_example :
    let ms = chain.middlewares in
    Ended "sync" ms [] (before_all chain "sync" [])
    × ((after_all chain "sync" (ok tt) []).1 ≡ [] ++ afters "sync" (ok tt) ms)
    × (((after_all chain "sync" (ok tt) []).0 ≡ err chain_failed) × Fails "sync" (ok tt) ms []
        ⊎ ((after_all chain "sync" (ok tt) []).0 ≡ ok tt) × (¬ Fails "sync" (ok tt) ms []))
before_all-after_all_example = before_all-after_all chain "sync" (ok tt) []
