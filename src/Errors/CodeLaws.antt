-- ===== src/Errors/CodeLaws.antt =====
-- How the codes of code.rs agree with their numbers and names.
use flare_server_core.Prelude.{
  ℕ, ◌≡◌, ◌↔◌, refl, inl, inr, some, List, [], ◌∷◌, All, ◌==◌, Bool-cases, arith,
}
use flare_server_core.Errors.Code.{ErrorCode, as_u32}
use flare_server_core.Errors.Numbers.{arms, first_arm, from_u32}

from_u32-as_u32 : (c : ErrorCode) → from_u32 (as_u32 c) ≡ some c
unfolding from_u32 first_arm
from_u32-as_u32 ErrorCode.connection_failed = refl
from_u32-as_u32 _ = refl

first_arm_sound :
    (n : ℕ) (c : ErrorCode) (rest : List (ℕ × ErrorCode))
    → All (λ a. a.0 ≡ as_u32 a.1) rest
    → first_arm n rest ≡ some c
    → n ≡ as_u32 c
unfolding first_arm
first_arm_sound n c [] h e = ground arith
first_arm_sound n c ((k, d) ∷ rest) (here, h) e = elim (Bool-cases (n == k)) [
  | inl hit ↦ ground (arith, hit, e, here)
  | inr miss ↦ first_arm_sound n c rest h (rw miss at e)
]

-- `from_u32` is the inverse of `as_u32`: it gives a code exactly at the number of this code, and
-- none at every other number.
pub from_u32_iff : (n : ℕ) (c : ErrorCode) → (from_u32 n ≡ some c) ↔ (n ≡ as_u32 c)
unfolding from_u32
from_u32_iff n c = (first_arm_sound n c arms (search arith), λ e. rw e (from_u32-as_u32 c))
