-- ===== src/Id/Snowflake/Unique.antt =====
-- Which identifiers the calls on generators of snowflake.rs give, one call after another.
use flare_server_core.Prelude.{
  ℕ, zero, suc, ◌+◌, ◌-◌, ◌*◌, ◌/◌, ◌%◌, ◌^◌, ◌≤◌, ◌<◌, ◌≡◌, ◌≢◌, refl, ◌⊎◌, inl, inr, false, none,
  some, List, [], ◌∷◌, ◌++◌, ok, err, arith, subst, ap, All,
}
use flare_server_core.Prelude.Int.{ℤ, pos, negsuc, as_i64, ltb_ℤ}
use flare_server_core.Id.Snowflake.{
  SnowflakeGenerator, Reading, Outcome, system_time_error, epoch_ms, new, wait_next_millis, next_id,
}
use flare_server_core.Id.Snowflake.Layout.{pack-eq-sum}
use flare_server_core.Id.Snowflake.Calls.{
  IsValid, IsReadyAt, IsUsable, InRange, floor, floor_at, next_id-Advances, next_id-IsValid,
  new-IsValid, as_i64-pos,
}

-- The identifiers that so many calls in a row return; a call that fails returns none.
unfoldable pub issued : ℕ → SnowflakeGenerator → List Reading → List ℕ
issued zero g rs = []
issued (suc n) g rs = elim (next_id g rs) [
  | none ↦ []
  | some (err e, g', rs') ↦ issued n g' rs'
  | some (ok id, g', rs') ↦ id ∷ issued n g' rs'
]

-- Strictly increasing, from `b` on.
abbrev pub IncreasesFrom : ℕ → List ℕ → Type 0
IncreasesFrom b [] = Unit
IncreasesFrom b (x ∷ xs) = (b ≤ x) × IncreasesFrom (suc x) xs

issued_step :
    (n : ℕ) (g : SnowflakeGenerator) (rs : List Reading) (o : Outcome SnowflakeGenerator)
    → IsValid g
    → IsReadyAt g.state.last_timestamp
    → All IsUsable rs
    → next_id g rs ≡ o
    → ((g' : SnowflakeGenerator) (rs' : List Reading)
        → IsValid g'
        → IsReadyAt g'.state.last_timestamp
        → All IsUsable rs'
        → IncreasesFrom (floor g') (issued n g' rs'))
    → IncreasesFrom (floor g) (elim o [
      | none ↦ []
      | some (err e, g', rs') ↦ issued n g' rs'
      | some (ok id, g', rs') ↦ id ∷ issued n g' rs'
    ])
issued_step n g rs none v ready u e ih = tt
issued_step n g rs (some (err x, g', rs')) v ready u e ih =
    let (same, more) = next_id-Advances g rs v ready u e in rw same (ih g rs' v ready more)
issued_step n g rs (some (ok id, g', rs')) v ready u e ih =
    let (above, next, ready', more) = next_id-Advances g rs v ready u e in
    (
      above,
      subst (λ b. IncreasesFrom b (issued n g' rs')) next
          (ih g' rs' (next_id-IsValid g rs v e).0 ready' more),
    )

-- From any valid generator, with a clock that can be read and shows times from the epoch on that
-- fit 42 bits, the identifiers that any number of calls return strictly increase, also where the
-- clock goes back between calls and some of them fail.
pub issued-IncreasesFrom :
    (n : ℕ) (g : SnowflakeGenerator) (rs : List Reading)
    → IsValid g
    → IsReadyAt g.state.last_timestamp
    → All IsUsable rs
    → IncreasesFrom (floor g) (issued n g rs)
unfolding issued
issued-IncreasesFrom zero g rs v ready u = tt
issued-IncreasesFrom (suc n) g rs v ready u =
    issued_step n g rs (next_id g rs) v ready u refl (issued-IncreasesFrom n)

floor-new : (w d : ℕ) (g : SnowflakeGenerator) → new w d ≡ ok g → floor g ≡ 0
unfolding new
floor-new w d g made = ground arith

-- The identifiers that any number of calls on a generator made by `new` return strictly increase, so
-- that none is returned twice, also where the clock goes back between calls and calls fail for it.
-- Every reading of the clock succeeds and shows a time from the epoch on that fits 42 bits.
pub issued-new-IncreasesFrom :
    (n w d : ℕ) (g : SnowflakeGenerator) (rs : List Reading)
    → new w d ≡ ok g
    → All IsUsable rs
    → IncreasesFrom 0 (issued n g rs)
issued-new-IncreasesFrom n w d g rs made u =
    let (v, ready) = new-IsValid w d g made in
    subst (λ b. IncreasesFrom b (issued n g rs)) (floor-new w d g made)
      (issued-IncreasesFrom n g rs v ready u)

read_fields :
    (g : SnowflakeGenerator) (t : ℤ) (s id : ℕ)
    → IsValid g
    → s < 4096
    → IsReadyAt t
    → floor_at g.datacenter_id g.worker_id t s ≡ suc id
    → (id / 2 ^ 12 % 32 ≡ g.worker_id)
      × (id / 2 ^ 17 % 32 ≡ g.datacenter_id)
      × (pos (id / 2 ^ 22 + epoch_ms) ≡ t)
      × (id % 2 ^ 12 ≡ s)
read_fields g (negsuc n) s id v hs ready e = absurd (omega arith)
read_fields g (pos m) s id v hs ready e =
    let t : id / 2 ^ 22 + epoch_ms ≡ m = omega arith in
    (omega arith, omega arith, ap pos t, omega arith)

-- From an identifier that a valid generator returns one reads back its worker, its datacenter, and
-- the timestamp and sequence that it stored. The readings of the clock are usable, and the stored
-- timestamp is unset or in their range.
pub next_id_fields :
    (g : SnowflakeGenerator) (rs : List Reading) (id : ℕ) (g' : SnowflakeGenerator)
    (rs' : List Reading)
    → IsValid g
    → IsReadyAt g.state.last_timestamp
    → All IsUsable rs
    → next_id g rs ≡ some (ok id, g', rs')
    → (id / 2 ^ 12 % 32 ≡ g.worker_id)
      × (id / 2 ^ 17 % 32 ≡ g.datacenter_id)
      × (pos (id / 2 ^ 22 + epoch_ms) ≡ g'.state.last_timestamp)
      × (id % 2 ^ 12 ≡ g'.state.sequence)
next_id_fields g rs id g' rs' v ready u e =
    let (above, next, ready', more) = next_id-Advances g rs v ready u e in
    let (v', w, d) = next_id-IsValid g rs v e in
    read_fields g g'.state.last_timestamp g'.state.sequence id v v'.sequence_fits ready'
      (ground arith)

-- Two valid generators that differ in worker or datacenter never return the same identifier. The
-- readings of both clocks are usable, and the stored timestamps are unset or in their range.
pub next_id-ne :
    (g h : SnowflakeGenerator) (rs ss : List Reading) (id id' : ℕ) (g' h' : SnowflakeGenerator)
    (rs' ss' : List Reading)
    → IsValid g
    → IsValid h
    → IsReadyAt g.state.last_timestamp
    → IsReadyAt h.state.last_timestamp
    → All IsUsable rs
    → All IsUsable ss
    → (g.worker_id ≢ h.worker_id) ⊎ (g.datacenter_id ≢ h.datacenter_id)
    → next_id g rs ≡ some (ok id, g', rs')
    → next_id h ss ≡ some (ok id', h', ss')
    → id ≢ id'
next_id-ne g h rs ss id id' g' h' rs' ss' vg vh rg rh ug uh (inl other) e f =
    omega
      (arith, next_id_fields g rs id g' rs' vg rg ug e, next_id_fields h ss id' h' ss' vh rh uh f)
next_id-ne g h rs ss id id' g' h' rs' ss' vg vh rg rh ug uh (inr other) e f =
    omega
      (arith, next_id_fields g rs id g' rs' vg rg ug e, next_id_fields h ss id' h' ss' vh rh uh f)

-- The clock can be read, and has not passed `last`.
abbrev pub IsEarly : ℕ → Reading → Type 0
IsEarly last none = ⊥
IsEarly last (some ms) = InRange ms × (ms ≤ last)

wait_next_millis-early :
    (last t : ℕ) (early rs : List Reading)
    → All (IsEarly last) early
    → InRange t
    → last < t
    → wait_next_millis (pos last) (early ++ some t ∷ rs) ≡ some (ok (pos t), rs)
unfolding wait_next_millis
wait_next_millis-early last t [] rs all_early range later =
    ground (arith, as_i64-pos t range, later)
wait_next_millis-early last t (none ∷ early) rs all_early range later = absurd (all_early.0)
wait_next_millis-early last t (some ms ∷ early) rs ((at, before), all_early) range later =
    let still : ltb_ℤ (pos last) (as_i64 ms) ≡ false = ground (arith, as_i64-pos ms at, before) in
    rw (wait_next_millis, still) (wait_next_millis-early last t early rs all_early range later)

-- A call with the largest sequence of its millisecond reads the clock, however often, until it shows a
-- later time, and then returns: with the identifier of this time and sequence 0, which the generator
-- keeps, and without another reading.
pub next_id_waits :
    (g : SnowflakeGenerator) (m t : ℕ) (early rs : List Reading)
    → IsValid g
    → InRange m
    → g.state.last_timestamp ≡ pos m
    → g.state.sequence ≡ 4095
    → g.poisoned ≡ false
    → All (IsEarly m) early
    → InRange t
    → m < t
    → next_id g (some m ∷ early ++ some t ∷ rs)
      ≡ some (
        ok ((t - epoch_ms) * 2 ^ 22 + g.datacenter_id * 2 ^ 17 + g.worker_id * 2 ^ 12),
        record g { state = record { last_timestamp = pos t; sequence = 0 } },
        rs,
      )
unfolding next_id
next_id_waits g m t early rs v hm at full sound all_early range later =
    let waited = wait_next_millis-early m t early rs all_early range later in
    ground (
      arith,
      as_i64-pos m hm,
      at,
      full,
      sound,
      waited,
      pack-eq-sum (t - epoch_ms) g.datacenter_id g.worker_id 0,
    )

-- When the clock fails while a call waits for the next millisecond, the call has already reset the
-- sequence: the next call in that millisecond gives an identifier of sequence 1 again, at most the
-- one that the generator gave last.
pub next_id_reissues :
    (g : SnowflakeGenerator) (m : ℕ) (rs ss : List Reading)
    → IsValid g
    → InRange m
    → g.state.last_timestamp ≡ pos m
    → g.state.sequence ≡ 4095
    → g.poisoned ≡ false
    → let g' = record g { state = record { last_timestamp = pos m; sequence = 0 } } in
      let id = (m - epoch_ms) * 2 ^ 22 + g.datacenter_id * 2 ^ 17 + g.worker_id * 2 ^ 12 + 1 in
      (next_id g (some m ∷ none ∷ rs) ≡ some (err system_time_error, g', rs))
      × (next_id g' (some m ∷ ss)
          ≡ some (ok id, record g { state = record { last_timestamp = pos m; sequence = 1 } }, ss))
      × (id < floor g)
unfolding next_id
next_id_reissues g m rs ss v hm at full sound = (
  ground (arith, as_i64-pos m hm),
  ground (arith, as_i64-pos m hm, pack-eq-sum (m - epoch_ms) g.datacenter_id g.worker_id 1),
  ground arith,
)
