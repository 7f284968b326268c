-- ===== src/Runtime/Health/Streaks.antt =====
-- The failure counts of health/checker.rs, against the failures in a row.
use mathlib.Core.List.{append-nil, append_assoc}
use flare_server_core.Prelude.{
  ℕ, suc, ◌+◌, ◌%◌, ◌^◌, ◌≤◌, ◌<◌, ◌≡◌, refl, sym, ap, ◌∙◌, true, String, List, [], ◌∷◌, ◌++◌, ok,
  err, leb, StringMap, get, insert, get-insert, unwrap_or, length, arith, str_eq, str_eq_iff,
  str_eq_self, Bool-cases, inl, inr, if◌then◌else◌,
}
use flare_server_core.Runtime.Health.{
  CheckAnswer, HealthChecker, new_checker, with_failure_threshold, with_on_failure, next_count,
  count_failure, check_one, check_all, check_rounds,
}

-- How many failures in a row a check has, in a history with the newest answer first.
unfoldable pub streak : String → List (String × CheckAnswer) → ℕ
streak name [] = 0
streak name ((k, ok _) ∷ past) = if str_eq k name then 0 else streak name past
streak name ((k, err e) ∷ past) = if str_eq k name then suc (streak name past) else streak name past

-- The alarms of the answers after a history: one at each failure that makes a long enough streak.
unfoldable pub alarms :
    (threshold : ℕ) → List (String × CheckAnswer) → List (String × CheckAnswer) → List String
unfolding streak
alarms threshold past [] = []
alarms threshold past ((k, ok u) ∷ rest) = alarms threshold ((k, ok u) ∷ past) rest
alarms threshold past ((k, err e) ∷ rest) =
    let later = alarms threshold ((k, err e) ∷ past) rest in
    if leb threshold (streak k ((k, err e) ∷ past)) then k ∷ later else later

abbrev pub newest_first :
    List (String × CheckAnswer) → List (String × CheckAnswer) → List (String × CheckAnswer)
newest_first past [] = past
newest_first past (a ∷ rest) = newest_first (a ∷ past) rest

streak-length :
    (name : String) (past : List (String × CheckAnswer)) → streak name past ≤ length past
unfolding streak
streak-length name [] = omega arith
streak-length name ((k, ok u) ∷ past) = ground (arith, streak-length name past)
streak-length name ((k, err e) ∷ past) = ground (arith, streak-length name past)

-- The counts are the streaks.
abbrev Counts : HealthChecker → List (String × CheckAnswer) → Type 0
Counts c past = (name : String) → unwrap_or 0 (get name c.failure_counts) ≡ streak name past

check_one_ok :
    (c : HealthChecker) (k : String) (u : Unit {0}) (past : List (String × CheckAnswer))
    → Counts c past
    → Counts (check_one c k (ok u)).0 ((k, ok u) ∷ past)
unfolding check_one streak
check_one_ok c k u past counts name =
    ground (arith, get-insert k name 0 c.failure_counts, counts name)

next_count_lem :
    (c : HealthChecker) (k : String) (past : List (String × CheckAnswer))
    → Counts c past
    → length past + 1 < 2 ^ 32
    → next_count c.failure_counts k ≡ suc (streak k past)
unfolding next_count
next_count_lem c k past counts small =
    ap (λ n. (n + 1) % 2 ^ 32) (counts k) ∙ omega (arith, streak-length k past)

insert_count :
    (k name : String) (n : ℕ) (counts : StringMap ℕ)
    → unwrap_or 0 (get name (insert k n counts))
      ≡ (if str_eq k name then n else unwrap_or 0 (get name counts))
insert_count k name n counts = ground (arith, get-insert k name n counts)

check_one_err :
    (c : HealthChecker) (k e : String) (past : List (String × CheckAnswer))
    → Counts c past
    → length past + 1 < 2 ^ 32
    → Counts (check_one c k (err e)).0 ((k, err e) ∷ past)
unfolding check_one count_failure streak
check_one_err c k e past counts small name =
    insert_count k name (next_count c.failure_counts k) c.failure_counts
    ∙ elim (Bool-cases (str_eq k name)) [
      | inl here ↦ rw here (
          next_count_lem c k past counts small
          ∙ ap (λ j. suc (streak j past)) ((str_eq_iff k name).0 here))
      | inr apart ↦ rw apart (counts name)
    ]

-- A checker with a callback, and the answers that it has seen.
record Watches (threshold : ℕ) (past : List (String × CheckAnswer)) (c : HealthChecker)
    : Type 0 where
  counts : Counts c past
  limit : c.failure_threshold ≡ threshold
  calls : c.on_failure ≡ true

check_one_err-called :
    (threshold : ℕ) (c : HealthChecker) (k e : String) (past : List (String × CheckAnswer))
    (later : List String)
    → Watches threshold past c
    → length past + 1 < 2 ^ 32
    → (check_one c k (err e)).0.called ++ later
      ≡ c.called ++ (if leb threshold (streak k ((k, err e) ∷ past)) then k ∷ later else later)
unfolding check_one count_failure streak
check_one_err-called threshold c k e past later w small =
    rw (next_count_lem c k past w.counts small, w.limit, w.calls, str_eq_self k)
      (elim (Bool-cases (leb threshold (suc (streak k past)))) [
        | inl alarm ↦ rw alarm (append_assoc c.called (k ∷ []) later)
        | inr quiet ↦ rw quiet refl
      ])

record Seen (threshold : ℕ) (past xs : List (String × CheckAnswer)) (c c' : HealthChecker)
    : Type 0 where
  watches : Watches threshold (newest_first past xs) c'
  called : c'.called ≡ c.called ++ alarms threshold past xs

check_all-Seen :
    (threshold : ℕ) (xs past : List (String × CheckAnswer)) (c : HealthChecker)
    → Watches threshold past c
    → length past + length xs < 2 ^ 32
    → Seen threshold past xs c (check_all c xs).0
unfolding check_all alarms
check_all-Seen threshold [] past c w small = record {
  watches = w;
  called = sym (append-nil c.called);
}
check_all-Seen threshold ((k, ok u) ∷ xs) past c w small =
    let c1 = (check_one c k (ok u)).0 in
    let w1 : Watches threshold ((k, ok u) ∷ past) c1 = record {
      counts = check_one_ok c k u past w.counts;
      limit = w.limit;
      calls = w.calls;
    } in
    let rest = check_all-Seen threshold xs ((k, ok u) ∷ past) c1 w1 (omega arith) in
    record { watches = rest.watches; called = rest.called }
check_all-Seen threshold ((k, err e) ∷ xs) past c w small =
    let c1 = (check_one c k (err e)).0 in
    let w1 : Watches threshold ((k, err e) ∷ past) c1 = record {
      counts = check_one_err c k e past w.counts (omega arith);
      limit = w.limit;
      calls = w.calls;
    } in
    let rest = check_all-Seen threshold xs ((k, err e) ∷ past) c1 w1 (omega arith) in
    record {
      watches = rest.watches;
      called =
          rest.called
          ∙ check_one_err-called threshold c k e past (alarms threshold ((k, err e) ∷ past) xs) w
              (omega arith);
    }

check_all-append :
    (c : HealthChecker) (xs ys : List (String × CheckAnswer))
    → (check_all c (xs ++ ys)).0 ≡ (check_all (check_all c xs).0 ys).0
unfolding check_all
check_all-append c [] ys = refl
check_all-append c ((k, a) ∷ xs) ys = check_all-append (check_one c k a).0 xs ys

-- The answers of all rounds, in order.
abbrev pub answers : List (List (String × CheckAnswer)) → List (String × CheckAnswer)
answers [] = []
answers (round ∷ rounds) = round ++ answers rounds

check_rounds-answers :
    (c : HealthChecker) (rounds : List (List (String × CheckAnswer)))
    → check_rounds c rounds ≡ (check_all c (answers rounds)).0
unfolding check_rounds check_all
check_rounds-answers c [] = refl
check_rounds-answers c (round ∷ rounds) =
    check_rounds-answers (check_all c round).0 rounds
    ∙ sym (check_all-append c round (answers rounds))

abbrev pub watching : ℕ → HealthChecker
watching threshold = with_on_failure (with_failure_threshold new_checker threshold)

-- Of a new checker with a callback, after any rounds of checks of fewer than 2 ^ 32 answers: the count
-- of each check is the number of its failures in a row up to now, and the callback has been called
-- for exactly the failures that made such a row as long as the threshold or longer, in their order.
pub check_rounds-streak :
    (threshold : ℕ) (rounds : List (List (String × CheckAnswer))) (name : String)
    → length (answers rounds) < 2 ^ 32
    → (unwrap_or 0 (get name (check_rounds (watching threshold) rounds).failure_counts)
        ≡ streak name (newest_first [] (answers rounds)))
      × ((check_rounds (watching threshold) rounds).called ≡ alarms threshold [] (answers rounds))
unfolding with_on_failure with_failure_threshold new_checker get streak
check_rounds-streak threshold rounds name small =
    let start : Watches threshold [] (watching threshold) = record {
      counts = λ n. refl;
      limit = refl;
      calls = refl;
    } in
    let seen =
      check_all-Seen threshold (answers rounds) [] (watching threshold) start
        (omega (arith, small)) in
    let same = check_rounds-answers (watching threshold) rounds in
    (
      ap (λ (c : HealthChecker). unwrap_or 0 (get name c.failure_counts)) same
          ∙ seen.watches.counts name,
      ap (λ (c : HealthChecker). c.called) same ∙ seen.called,
    )
