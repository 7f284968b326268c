-- ===== src/Id/Snowflake/Calls.antt =====
-- One call of `next_id` on a generator of snowflake.rs.
use flare_server_core.Prelude.{
  ℕ, suc, ◌+◌, ◌-◌, ◌*◌, ◌%◌, ◌^◌, ◌≤◌, ◌<◌, bit_and, ◌≡◌, refl, inl, inr, true, Option, none, some,
  List, [], ◌∷◌, Result, ok, err, arith, All, ltb, Bool-cases, ◌==◌, refl, Option,
}
use flare_server_core.Prelude.Int.{ℤ, pos, negsuc, as_i64, ltb_ℤ}
use flare_server_core.Prelude.Bits.{bit_and-eq-mod}
use flare_server_core.Id.Snowflake.{
  SnowflakeGenerator, SnowflakeError, Reading, epoch_ms, new, wait_next_millis, issue, after_wait,
  same_millis, next_id_at, next_id, sequence_mask,
}
use flare_server_core.Id.Snowflake.Layout.{pack-eq-sum}

-- The fields fit their bits.
pub record IsValid (g : SnowflakeGenerator) : Type 0 where
  pub worker_fits : g.worker_id < 32
  pub datacenter_fits : g.datacenter_id < 32
  pub sequence_fits : g.state.sequence < 4096

-- The generator has issued nothing yet, or its last timestamp fits 42 bits after the epoch.
abbrev pub InRange : ℕ → Type 0
InRange ms = (epoch_ms ≤ ms) × (ms < epoch_ms + 2 ^ 42)

abbrev pub IsReadyAt : ℤ → Type 0
IsReadyAt (pos m) = InRange m
IsReadyAt (negsuc n) = n ≡ 0

-- The clock can be read, and shows a time that fits 42 bits after the epoch.
abbrev pub IsUsable : Reading → Type 0
IsUsable none = ⊥
IsUsable (some ms) = InRange ms

pub new-IsValid :
    (w d : ℕ) (g : SnowflakeGenerator)
    → new w d ≡ ok g
    → IsValid g × IsReadyAt g.state.last_timestamp
unfolding new
new-IsValid w d g e = ground arith

pub as_i64-pos : (ms : ℕ) → InRange ms → as_i64 ms ≡ pos ms
as_i64-pos ms h = ground arith

next_sequence : (s : ℕ) → bit_and ((s + 1) % 2 ^ 64) sequence_mask ≡ (s + 1) % 4096
next_sequence s = omega (arith, bit_and-eq-mod 12 ((s + 1) % 2 ^ 64))

-- Whatever a call gives, it keeps the identity of the generator and the width of its fields.
pub next_id-IsValid :
    (g : SnowflakeGenerator) (rs : List Reading) {r : Result ℕ SnowflakeError}
    {g' : SnowflakeGenerator} {rs' : List Reading}
    → IsValid g
    → next_id g rs ≡ some (r, g', rs')
    → IsValid g' × (g'.worker_id ≡ g.worker_id) × (g'.datacenter_id ≡ g.datacenter_id)
unfolding next_id
next_id-IsValid g [] v e = ground arith
next_id-IsValid g (none ∷ rs) v e = ground arith
next_id-IsValid g (some ms ∷ rs) v e = ground (arith, next_sequence g.state.sequence)

-- The wait ends at a usable reading after `last`.
wait_next_millis-IsUsable :
    (last : ℤ) (rs : List Reading) {r : Result ℤ SnowflakeError} {rs' : List Reading}
    → All IsUsable rs
    → wait_next_millis last rs ≡ some (r, rs')
    → (m : ℕ) × (r ≡ ok (pos m)) × InRange m × (ltb_ℤ last (pos m) ≡ true) × All IsUsable rs'
unfolding wait_next_millis
wait_next_millis-IsUsable last [] u e = ground arith
wait_next_millis-IsUsable last (none ∷ rs) u e = absurd u.0
wait_next_millis-IsUsable last (some ms ∷ rs) {r} {rs'} u e =
    elim (Bool-cases (ltb_ℤ last (pos ms))) [
      | inl past ↦
          (ms, ground (arith, as_i64-pos ms u.0), u.0, past, ground (arith, as_i64-pos ms u.0))
      | inr still ↦
          wait_next_millis-IsUsable last rs {r = r} {rs' = rs'} u.1
            (ground (arith, as_i64-pos ms u.0))
    ]

-- The least identifier that a generator may still issue.
abbrev pub floor_at : ℕ → ℕ → ℤ → ℕ → ℕ
floor_at d w (pos m) s = (m - epoch_ms) * 2 ^ 22 + d * 2 ^ 17 + w * 2 ^ 12 + s + 1
floor_at d w (negsuc n) s = 0

abbrev pub floor : SnowflakeGenerator → ℕ
floor g = floor_at g.datacenter_id g.worker_id g.state.last_timestamp g.state.sequence

-- A usable clock: a result is a new identifier, and an error changes nothing.
abbrev pub Advances :
    SnowflakeGenerator → Result ℕ SnowflakeError → SnowflakeGenerator → List Reading → Type 0
Advances g (ok id) g' rs' =
    (floor g ≤ id) × (floor g' ≡ suc id) × IsReadyAt g'.state.last_timestamp × All IsUsable rs'
Advances g (err e) g' rs' = (g' ≡ g) × All IsUsable rs'

issue-Advances :
    (g : SnowflakeGenerator) (s m : ℕ) (rs : List Reading) {r : Result ℕ SnowflakeError}
    {g' : SnowflakeGenerator} {rs' : List Reading}
    → IsValid g
    → s < 4096
    → InRange m
    → All IsUsable rs
    → floor g ≤ floor_at g.datacenter_id g.worker_id (pos m) s - 1
    → issue g s (pos m) rs ≡ some (r, g', rs')
    → Advances g r g' rs'
unfolding issue
issue-Advances g s m rs v hs hm u f e =
    ground (arith, pack-eq-sum (m - epoch_ms) g.datacenter_id g.worker_id s)

after_wait-Advances :
    (g : SnowflakeGenerator) (last : ℕ) (rs : List Reading) {r : Result ℕ SnowflakeError}
    {g' : SnowflakeGenerator} {rs' : List Reading}
    → IsValid g
    → g.state.last_timestamp ≡ pos last
    → InRange last
    → All IsUsable rs
    → after_wait g (wait_next_millis g.state.last_timestamp rs) ≡ some (r, g', rs')
    → Advances g r g' rs'
unfolding after_wait
after_wait-Advances g last rs {r} {g'} {rs'} v at hl u e =
    go (wait_next_millis g.state.last_timestamp rs)
      (λ t more w. wait_next_millis-IsUsable g.state.last_timestamp rs u w) e
  where
    go :
        (w : Option (Result ℤ SnowflakeError × List Reading))
        → ((t : Result ℤ SnowflakeError) (more : List Reading)
            → w ≡ some (t, more)
            → (m : ℕ) × (t ≡ ok (pos m))
              × InRange m
              × (ltb_ℤ g.state.last_timestamp (pos m) ≡ true)
              × All IsUsable more)
        → after_wait g w ≡ some (r, g', rs')
        → Advances g r g' rs'
    go none h e = ground arith
    go (some (err x, more)) h e = ground (arith, h (err x) more refl)
    go (some (ok t, more)) h e =
        let (m, same, hm, later, um) = h (ok t) more refl in
        issue-Advances g 0 m more v (omega arith) hm um (ground arith) (ground arith)

same_millis-Advances :
    (g : SnowflakeGenerator) (last : ℕ) (rs : List Reading) {r : Result ℕ SnowflakeError}
    {g' : SnowflakeGenerator} {rs' : List Reading}
    → IsValid g
    → g.state.last_timestamp ≡ pos last
    → InRange last
    → All IsUsable rs
    → same_millis g (pos last) rs ≡ some (r, g', rs')
    → Advances g r g' rs'
unfolding same_millis
same_millis-Advances g last rs {r} {g'} {rs'} v at hl u e =
    let s = bit_and ((g.state.sequence + 1) % 2 ^ 64) sequence_mask in
    elim (Bool-cases (s == 0)) [
      | inl wrapped ↦ after_wait-Advances g last rs v at hl u (ground arith)
      | inr room ↦
          let next : s ≡ g.state.sequence + 1 =
            ground (arith, next_sequence g.state.sequence, v.sequence_fits) in
          issue-Advances g s last rs v (ground (arith, next_sequence g.state.sequence)) hl u
            (ground arith) (ground arith)
    ]

next_id_at-Advances :
    (g : SnowflakeGenerator) (t : ℤ) (m : ℕ) (rs : List Reading) {r : Result ℕ SnowflakeError}
    {g' : SnowflakeGenerator} {rs' : List Reading}
    → g.state.last_timestamp ≡ t
    → IsValid g
    → IsReadyAt t
    → InRange m
    → All IsUsable rs
    → next_id_at g (pos m) rs ≡ some (r, g', rs')
    → Advances g r g' rs'
unfolding next_id_at
next_id_at-Advances g (negsuc n) m rs at v ready hm u e =
    issue-Advances g 0 m rs v (omega arith) hm u (ground arith) (ground arith)
next_id_at-Advances g (pos last) m rs at v ready hm u e = elim (Bool-cases (ltb m last)) [
  | inl back ↦ ground arith
  | inr forward ↦ elim (Bool-cases (m == last)) [
    | inl same ↦ same_millis-Advances g last rs v at ready u (ground arith)
    | inr later ↦ issue-Advances g 0 m rs v (omega arith) hm u (ground arith) (ground arith)
  ]
]

-- With a usable clock a result is an identifier above all those before it, and an error (a clock
-- that moved backwards, a poisoned lock) leaves the generator as it was.
pub next_id-Advances :
    (g : SnowflakeGenerator) (rs : List Reading) {r : Result ℕ SnowflakeError}
    {g' : SnowflakeGenerator} {rs' : List Reading}
    → IsValid g
    → IsReadyAt g.state.last_timestamp
    → All IsUsable rs
    → next_id g rs ≡ some (r, g', rs')
    → Advances g r g' rs'
unfolding next_id
next_id-Advances g [] v ready u e = ground arith
next_id-Advances g (none ∷ rs) v ready u e = absurd u.0
next_id-Advances g (some ms ∷ rs) v ready u e = elim (Bool-cases g.poisoned) [
  | inl poisoned ↦ ground arith
  | inr sound ↦
      next_id_at-Advances g g.state.last_timestamp ms rs refl v ready u.0 u.1
        (ground (arith, as_i64-pos ms u.0))
]
