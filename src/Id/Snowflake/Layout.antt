-- ===== src/Id/Snowflake/Layout.antt =====
-- The bit layout of the identifiers of snowflake.rs.
use flare_server_core.Prelude.{ℕ, ◌+◌, ◌*◌, ◌/◌, ◌%◌, ◌^◌, ◌<◌, ◌≡◌, arith}
use flare_server_core.Prelude.Bits.{bit_or-eq-add}
use flare_server_core.Id.Snowflake.{pack}

pub pack-eq-sum :
    (t d w s : ℕ)
    → t < 2 ^ 42
    → d < 32
    → w < 32
    → s < 4096
    → pack t d w s ≡ t * 2 ^ 22 + d * 2 ^ 17 + w * 2 ^ 12 + s
unfolding pack
pack-eq-sum t d w s ht hd hw hs = ground (
  arith,
  bit_or-eq-add 22 t (d * 2 ^ 17),
  bit_or-eq-add 17 (t * 32 + d) (w * 2 ^ 12),
  bit_or-eq-add 12 ((t * 32 + d) * 32 + w) s,
)

-- Every field can be read back from the identifier.
pub pack_fields :
    (t d w s : ℕ)
    → t < 2 ^ 42
    → d < 32
    → w < 32
    → s < 4096
    → let id = pack t d w s in
      (id / 2 ^ 22 ≡ t) × (id / 2 ^ 17 % 32 ≡ d) × (id / 2 ^ 12 % 32 ≡ w) × (id % 2 ^ 12 ≡ s)
pack_fields t d w s ht hd hw hs = omega (arith, pack-eq-sum t d w s ht hd hw hs)
