-- ===== src/Id/Snowflake.antt =====
-- flare-core-base/src/id/snowflake.rs. The system clock is the list of the readings that the
-- generator takes, oldest first: `some ms` is a time since the Unix epoch in milliseconds, `none` a
-- clock that stands before that epoch. A call that still waits when the list ends gives `none`.
pub mod Layout
pub mod Calls
pub mod Unique
mod Samples
use flare_server_core.Prelude.{
  ℕ, ◌+◌, ◌-◌, ◌*◌, ◌%◌, ◌^◌, bit_and, bit_or, Bool, true, false, Option, none, some, List, [], ◌∷◌,
  Result, ok, err, ltb, ◌==◌, if◌then◌else◌,
}
use flare_server_core.Prelude.Int.{ℤ, pos, negsuc, ltb_ℤ, eqb_ℤ, as_i64, sub_as_u64}

abbrev pub epoch_ms : ℕ
epoch_ms = 1_704_067_200_000

abbrev pub worker_id_bits : ℕ
worker_id_bits = 5

abbrev pub datacenter_id_bits : ℕ
datacenter_id_bits = 5

abbrev pub sequence_bits : ℕ
sequence_bits = 12

abbrev pub max_worker_id : ℕ
max_worker_id = 2 ^ worker_id_bits - 1

abbrev pub max_datacenter_id : ℕ
max_datacenter_id = 2 ^ datacenter_id_bits - 1

abbrev pub sequence_mask : ℕ
sequence_mask = 2 ^ sequence_bits - 1

abbrev pub worker_id_shift : ℕ
worker_id_shift = sequence_bits

abbrev pub datacenter_id_shift : ℕ
datacenter_id_shift = sequence_bits + worker_id_bits

abbrev pub timestamp_shift : ℕ
timestamp_shift = sequence_bits + worker_id_bits + datacenter_id_bits

pub data SnowflakeError : Type 0 where
  invalid_worker_id invalid_datacenter_id clock_moved_backwards : SnowflakeError
  system_time_error lock_poisoned : SnowflakeError

pub record SnowflakeState : Type 0 where
  pub last_timestamp : ℤ
  pub sequence : ℕ

-- `poisoned` is the flag of the mutex around the state.
pub record SnowflakeGenerator : Type 0 where
  pub worker_id : ℕ
  pub datacenter_id : ℕ
  pub state : SnowflakeState
  pub poisoned : Bool

-- SnowflakeGenerator::new
unfoldable pub new : ℕ → ℕ → Result SnowflakeGenerator SnowflakeError
new worker_id datacenter_id =
    if ltb max_worker_id worker_id
    then err invalid_worker_id
    else if ltb max_datacenter_id datacenter_id
    then err invalid_datacenter_id
    else ok (record {
      worker_id = worker_id;
      datacenter_id = datacenter_id;
      state = record { last_timestamp = negsuc 0; sequence = 0 };
      poisoned = false;
    })

abbrev pub Reading : Type 0
Reading = Option ℕ

-- What a call returns: its result, what it leaves, and the readings that it did not take.
abbrev pub Outcome : Type 0 → Type 0
Outcome S = Option (Result ℕ SnowflakeError × S × List Reading)

-- `wait_next_millis`: reads the clock until it has passed `last`.
unfoldable pub wait_next_millis : ℤ → List Reading → Option (Result ℤ SnowflakeError × List Reading)
wait_next_millis last [] = none
wait_next_millis last (none ∷ rs) = some (err system_time_error, rs)
wait_next_millis last (some ms ∷ rs) =
    if ltb_ℤ last (as_i64 ms) then some (ok (as_i64 ms), rs) else wait_next_millis last rs

-- The identifier: `ts_part`, the datacenter, the worker and the sequence, shifted and joined by `|`.
unfoldable pub pack : ℕ → ℕ → ℕ → ℕ → ℕ
pack ts_part datacenter_id worker_id sequence =
    bit_or
      (bit_or
        (bit_or (ts_part * 2 ^ timestamp_shift % 2 ^ 64)
          (datacenter_id * 2 ^ datacenter_id_shift % 2 ^ 64))
        (worker_id * 2 ^ worker_id_shift % 2 ^ 64))
      sequence

-- The end of `next_id`: stores the timestamp and composes the identifier.
unfoldable pub issue : SnowflakeGenerator → ℕ → ℤ → List Reading → Outcome SnowflakeGenerator
issue g sequence timestamp rs = some (
  ok (pack (sub_as_u64 timestamp (pos epoch_ms)) g.datacenter_id g.worker_id sequence),
  record g { state = record { last_timestamp = timestamp; sequence = sequence } },
  rs,
)

-- The sequence has wrapped to 0 and is stored: what the wait for the next millisecond gives.
unfoldable pub after_wait :
    SnowflakeGenerator
    → Option (Result ℤ SnowflakeError × List Reading)
    → Outcome SnowflakeGenerator
unfolding issue
after_wait g none = none
after_wait g (some (err e, rs)) = some (
  err e,
  record g { state = record { last_timestamp = g.state.last_timestamp; sequence = 0 } },
  rs,
)
after_wait g (some (ok timestamp, rs)) = issue g 0 timestamp rs

-- The branch of `next_id` for a second call in one millisecond.
unfoldable pub same_millis : SnowflakeGenerator → ℤ → List Reading → Outcome SnowflakeGenerator
unfolding issue after_wait wait_next_millis
same_millis g timestamp rs =
    let sequence = bit_and ((g.state.sequence + 1) % 2 ^ 64) sequence_mask in
    if sequence == 0
    then after_wait g (wait_next_millis g.state.last_timestamp rs)
    else issue g sequence timestamp rs

-- `next_id` from its first reading of the clock on.
unfoldable pub next_id_at : SnowflakeGenerator → ℤ → List Reading → Outcome SnowflakeGenerator
unfolding same_millis issue
next_id_at g timestamp rs =
    if ltb_ℤ timestamp g.state.last_timestamp
    then some (err clock_moved_backwards, g, rs)
    else if eqb_ℤ timestamp g.state.last_timestamp
    then same_millis g timestamp rs
    else issue g 0 timestamp rs

next_id_locked : SnowflakeGenerator → List Reading → Outcome SnowflakeGenerator
unfolding next_id_at
next_id_locked g [] = none
next_id_locked g (none ∷ rs) = some (err system_time_error, g, rs)
next_id_locked g (some ms ∷ rs) = next_id_at g (as_i64 ms) rs

-- SnowflakeGenerator::next_id
unfoldable pub next_id : SnowflakeGenerator → List Reading → Outcome SnowflakeGenerator
unfolding next_id_locked
next_id g rs = if g.poisoned then some (err lock_poisoned, g, rs) else next_id_locked g rs
