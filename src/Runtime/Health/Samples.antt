-- ===== src/Runtime/Health/Samples.antt =====
-- A check that fails three times in a row, for health/checker.rs.
use flare_server_core.Prelude.{◌≡◌, refl, String, List, [], ◌∷◌, ok, err, get, unwrap_or, arith}
use flare_server_core.Runtime.Health.{CheckAnswer, check_rounds}
use flare_server_core.Runtime.Health.Streaks.{
  streak, alarms, newest_first, answers, watching, check_rounds-streak,
}

abbrev good : CheckAnswer
good = ok tt

abbrev bad : CheckAnswer
bad = err "no connection"

abbrev rounds : List (List (String × CheckAnswer))
rounds =
    (("db", bad) ∷ ("disk", good) ∷ [])
    ∷ (("db", bad) ∷ ("disk", bad) ∷ [])
    ∷ (("db", bad) ∷ ("disk", good) ∷ [])
    ∷ []

check_rounds-streak_example :
    (unwrap_or 0 (get "db" (check_rounds (watching 3) rounds).failure_counts)
      ≡ streak "db" (newest_first [] (answers rounds)))
    × ((check_rounds (watching 3) rounds).called ≡ alarms 3 [] (answers rounds))
check_rounds-streak_example = check_rounds-streak 3 rounds "db" (omega arith)

one_alarm : alarms 3 [] (answers rounds) ≡ "db" ∷ []
unfolding alarms streak
one_alarm = refl
