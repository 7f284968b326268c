-- ===== src/Id/Snowflake/Samples.antt =====
-- Small clocks and generators, and what snowflake.rs does with them.
use flare_server_core.Prelude.{
  ℕ, ◌+◌, ◌-◌, ◌++◌, ◌*◌, ◌/◌, ◌%◌, ◌^◌, ◌<◌, ◌≡◌, ◌≢◌, refl, inl, false, none, some, List, [], ◌∷◌,
  ok, err, arith,
}
use flare_server_core.Prelude.Int.{pos, negsuc}
use flare_server_core.Id.Snowflake.{
  SnowflakeGenerator, Reading, system_time_error, epoch_ms, new, next_id, pack,
}
use flare_server_core.Id.Snowflake.Calls.{IsValid, floor}
use flare_server_core.Id.Snowflake.Unique.{
  issued, IncreasesFrom, issued-new-IncreasesFrom, next_id_fields, next_id-ne, next_id_waits,
  next_id_reissues,
}

abbrev generator : ℕ → SnowflakeGenerator
generator w = record {
  worker_id = w;
  datacenter_id = 2;
  state = record { last_timestamp = negsuc 0; sequence = 0 };
  poisoned = false;
}

-- Two calls in one millisecond, a clock that goes back, and a later call.
abbrev clock : List Reading
clock = some (epoch_ms + 7) ∷ some (epoch_ms + 7) ∷ some (epoch_ms + 6) ∷ some (epoch_ms + 9) ∷ []

abbrev busy : SnowflakeGenerator
busy = record (generator 1) {
  state = record { last_timestamp = pos (epoch_ms + 7); sequence = 4095 };
}

generator-IsValid : IsValid (generator 1)
generator-IsValid = omega arith

generator_3-IsValid : IsValid (generator 3)
generator_3-IsValid = omega arith

issued-clock :
    issued 4 (generator 1) clock
    ≡ (7 * 2 ^ 22 + 2 * 2 ^ 17 + 2 ^ 12)
      ∷ (7 * 2 ^ 22 + 2 * 2 ^ 17 + 2 ^ 12 + 1)
      ∷ (9 * 2 ^ 22 + 2 * 2 ^ 17 + 2 ^ 12)
      ∷ []
unfolding issued next_id pack
issued-clock = refl

issued-new-IncreasesFrom_example : IncreasesFrom 0 (issued 4 (generator 1) clock)
unfolding new
issued-new-IncreasesFrom_example =
    issued-new-IncreasesFrom 4 1 2 (generator 1) clock refl (omega arith)

abbrev first_id : ℕ → ℕ
first_id w = 7 * 2 ^ 22 + 2 * 2 ^ 17 + w * 2 ^ 12

abbrev after_first : ℕ → SnowflakeGenerator
after_first w = record (generator w) {
  state = record { last_timestamp = pos (epoch_ms + 7); sequence = 0 };
}

next_id_fields_example :
    (first_id 1 / 2 ^ 12 % 32 ≡ 1)
    × (first_id 1 / 2 ^ 17 % 32 ≡ 2)
    × (pos (first_id 1 / 2 ^ 22 + epoch_ms) ≡ pos (epoch_ms + 7))
    × (first_id 1 % 2 ^ 12 ≡ 0)
unfolding next_id pack
next_id_fields_example =
    next_id_fields (generator 1) (some (epoch_ms + 7) ∷ []) (first_id 1) (after_first 1) []
      generator-IsValid refl (omega arith) refl

next_id-ne_example : ◌≢◌ {A = ℕ} (first_id 1) (first_id 3)
unfolding next_id pack
next_id-ne_example =
    next_id-ne (generator 1) (generator 3) (some (epoch_ms + 7) ∷ []) (some (epoch_ms + 7) ∷ [])
      (first_id 1) (first_id 3) (after_first 1) (after_first 3) [] [] generator-IsValid
      generator_3-IsValid refl refl (omega arith) (omega arith) (inl (omega arith)) refl refl

-- Two readings of the old millisecond, and then the next one.
next_id_waits_example :
    next_id busy (
      some (epoch_ms + 7) ∷ (some (epoch_ms + 7) ∷ some (epoch_ms + 6) ∷ [])
      ++ some (epoch_ms + 8) ∷ none ∷ [])
    ≡ some (
      ok ((epoch_ms + 8 - epoch_ms) * 2 ^ 22 + 2 * 2 ^ 17 + 1 * 2 ^ 12),
      record busy { state = record { last_timestamp = pos (epoch_ms + 8); sequence = 0 } },
      none ∷ [],
    )
next_id_waits_example =
    next_id_waits busy (epoch_ms + 7) (epoch_ms + 8)
      (some (epoch_ms + 7) ∷ some (epoch_ms + 6) ∷ []) (none ∷ []) (omega arith) (omega arith) refl
      refl refl (omega arith) (omega arith) (omega arith)

next_id_reissues_example :
    (next_id busy (some (epoch_ms + 7) ∷ none ∷ [])
      ≡ some (err system_time_error, after_first 1, []))
    × (next_id (after_first 1) (some (epoch_ms + 7) ∷ [])
        ≡ some (
          ok (first_id 1 + 1),
          record (generator 1) {
            state = record { last_timestamp = pos (epoch_ms + 7); sequence = 1 };
          },
          [],
        ))
    × (first_id 1 + 1 < floor busy)
next_id_reissues_example =
    next_id_reissues busy (epoch_ms + 7) [] [] (omega arith) (omega arith) refl refl refl
