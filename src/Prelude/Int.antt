-- ===== src/Prelude/Int.antt =====
-- `i64` values as signed integers, and the casts between them and `u64`.
use flare_server_core.Prelude.{ℕ, suc, ◌+◌, ◌-◌, ◌%◌, ◌^◌, Bool, ltb, ◌==◌, if◌then◌else◌}

-- `negsuc n` is -(n + 1).
pub data ℤ : Type 0 where
  pos : ℕ → ℤ
  negsuc : ℕ → ℤ

abbrev pub pos_part : ℤ → ℕ
pos_part (pos n) = n
pos_part (negsuc n) = 0

abbrev pub neg_part : ℤ → ℕ
neg_part (pos n) = 0
neg_part (negsuc n) = suc n

abbrev pub ltb_ℤ : ℤ → ℤ → Bool
ltb_ℤ a b = ltb (pos_part a + neg_part b) (pos_part b + neg_part a)

abbrev pub eqb_ℤ : ℤ → ℤ → Bool
eqb_ℤ a b = (pos_part a + neg_part b) == (pos_part b + neg_part a)

-- `x as i64`: the low 64 bits, read in two's complement.
abbrev pub as_i64 : ℕ → ℤ
as_i64 x = if ltb (x % 2 ^ 64) (2 ^ 63) then pos (x % 2 ^ 64) else negsuc (2 ^ 64 - 1 - x % 2 ^ 64)

-- `(a - b) as u64` on `i64`: the difference modulo 2 ^ 64.
abbrev pub sub_as_u64 : ℤ → ℤ → ℕ
sub_as_u64 a b =
    (pos_part a % 2 ^ 64
      + neg_part b % 2 ^ 64
      + (2 ^ 64 - pos_part b % 2 ^ 64)
      + (2 ^ 64 - neg_part a % 2 ^ 64))
    % 2 ^ 64
