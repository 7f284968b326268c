-- ===== src/Prelude/Lists.antt =====
-- Lists measured by native numbers, Boolean searches, and predicates on all elements.
use Prim.Native.Nat.{ℕ, suc, ◌+◌, ◌≤◌}
use Prim.Native.String.{String}
use mathlib.Core.Path.{◌≡◌, refl}
use mathlib.Core.Logic.{◌↔◌, inl, inr}
use mathlib.Core.Bool.{Bool, true, false, ◌&&◌, ◌||◌}
use mathlib.Core.List.{List, [], ◌∷◌, ◌++◌}
use native.Mathlib.Omega.{arith}
use flare_server_core.Prelude.Tests.{str_eq, str_eq_iff, str_eq_self, if◌then◌else◌, Bool-cases}

module _ {ℓ} {A : Type ℓ} where
  abbrev pub length : List A → ℕ
  length [] = 0
  length (x ∷ xs) = suc (length xs)

  pub length-append : (xs ys : List A) → length (xs ++ ys) ≡ length xs + length ys
  length-append [] ys = omega arith
  length-append (x ∷ xs) ys = omega (arith, length-append xs ys)

  -- `Iterator::all` and `Iterator::any`.
  abbrev pub all : (A → Bool) → List A → Bool
  all p [] = true
  all p (x ∷ xs) = p x && all p xs

  abbrev pub any : (A → Bool) → List A → Bool
  any p [] = false
  any p (x ∷ xs) = p x || any p xs

  -- `Iterator::filter`.
  abbrev pub filter : (A → Bool) → List A → List A
  filter p [] = []
  filter p (x ∷ xs) = if p x then x ∷ filter p xs else filter p xs

  pub length-filter-le : (p : A → Bool) (xs : List A) → length (filter p xs) ≤ length xs
  length-filter-le p [] = omega arith
  length-filter-le p (x ∷ xs) = ground (arith, length-filter-le p xs)

  abbrev pub All {κ} : (A → Type κ) → List A → Type κ
  All P [] = Unit
  All P (x ∷ xs) = P x × All P xs

-- Membership of a text in a list, as `contains` decides it.
abbrev pub contains : String → List String → Bool
contains s [] = false
contains s (x ∷ xs) = str_eq x s || contains s xs

-- How often a text stands in a list.
abbrev pub occurrences : String → List String → ℕ
occurrences s [] = 0
occurrences s (x ∷ xs) = if str_eq x s then suc (occurrences s xs) else occurrences s xs

pub contains-occurrences :
    (s : String) (xs : List String) → (contains s xs ≡ true) ↔ (1 ≤ occurrences s xs)
contains-occurrences s [] = (λ e. cc, λ h. absurd (omega arith))
contains-occurrences s (x ∷ xs) = elim (Bool-cases (str_eq x s)) [
  | inl hit ↦ rw hit (λ e. omega arith, λ h. refl)
  | inr miss ↦ rw miss (contains-occurrences s xs)
]

pub contains-append :
    (s : String) (xs ys : List String) → contains s (xs ++ ys) ≡ (contains s xs || contains s ys)
contains-append s [] ys = refl
contains-append s (x ∷ xs) ys = elim (Bool-cases (str_eq x s)) [
  | inl hit ↦ rw hit
  | inr miss ↦ rw miss (contains-append s xs ys)
]

pub occurrences-append :
    (s : String) (xs ys : List String)
    → occurrences s (xs ++ ys) ≡ occurrences s xs + occurrences s ys
occurrences-append s [] ys = omega arith
occurrences-append s (x ∷ xs) ys = ground (arith, occurrences-append s xs ys)

pub all_of_contains :
    (p : String → Bool) (xs : List String)
    → ((x : String) → contains x xs ≡ true → p x ≡ true)
    → all p xs ≡ true
all_of_contains p [] h = refl
all_of_contains p (x ∷ xs) h = ground (
  arith,
  h x (ground (arith, str_eq_self x)),
  all_of_contains p xs (λ y m. h y (ground (arith, m))),
)

pub all_at :
    (p : String → Bool) (x : String) (xs : List String)
    → all p xs ≡ true
    → contains x xs ≡ true
    → p x ≡ true
all_at p x [] h m = cc
all_at p x (y ∷ xs) h m = elim (Bool-cases (str_eq y x)) [
  | inl hit ↦ let here : y ≡ x = (str_eq_iff y x).0 hit in rw (← here) (ground arith)
  | inr miss ↦ all_at p x xs (ground arith) (ground arith)
]

-- No text stands twice.
abbrev pub IsDistinct : List String → Type 0
IsDistinct [] = Unit
IsDistinct (x ∷ xs) = (contains x xs ≡ false) × IsDistinct xs

abbrev erase : String → List String → List String
erase x [] = []
erase x (y ∷ ys) = if str_eq y x then ys else y ∷ erase x ys

length-erase :
    (x : String) (ys : List String) → contains x ys ≡ true → length ys ≡ suc (length (erase x ys))
length-erase x [] h = cc
length-erase x (y ∷ ys) h = ground (arith, length-erase x ys)

occurrences-erase :
    (x z : String) (ys : List String)
    → contains x ys ≡ true
    → occurrences z ys ≡ occurrences z (erase x ys) + (if str_eq x z then 1 else 0)
occurrences-erase x z [] h = cc
occurrences-erase x z (y ∷ ys) h =
    ground (arith, occurrences-erase x z ys, str_eq_iff y x, str_eq_iff x z, str_eq_iff y z)

contains-erase_ne :
    (x z : String) (ys : List String) → str_eq x z ≡ false → contains z (erase x ys) ≡ contains z ys
contains-erase_ne x z [] h = refl
contains-erase_ne x z (y ∷ ys) h =
    ground (arith, contains-erase_ne x z ys h, str_eq_iff y x, str_eq_iff x z, str_eq_iff y z)

-- Distinct texts out of a list are at most as many as it has, and if they are as many they are all.
pub pigeonhole :
    (xs ys : List String)
    → IsDistinct xs
    → ((z : String) → contains z xs ≡ true → contains z ys ≡ true)
    → (length xs ≤ length ys)
      × (length xs ≡ length ys → (z : String) → occurrences z xs ≡ occurrences z ys)
pigeonhole [] [] d sub = (omega arith, λ e z. refl)
pigeonhole [] (y ∷ ys) d sub = (omega arith, λ e. absurd (omega arith))
pigeonhole (x ∷ xs) ys (new, d) sub =
    let here : contains x ys ≡ true = sub x (ground (arith, str_eq_self x)) in
    let (le, same) = pigeonhole xs (erase x ys) d (λ z m. rest z m) in
    (
      omega (arith, length-erase x ys here),
      λ e z.
          ground
            (arith, same (omega (arith, length-erase x ys here)) z, occurrences-erase x z ys here),
    )
  where
    rest : (z : String) → contains z xs ≡ true → contains z (erase x ys) ≡ true
    rest z m =
        let apart : str_eq x z ≡ false = ground (arith, str_eq_iff x z, new, m) in
        ground (arith, contains-erase_ne x z ys apart, sub z (ground (arith, m)))

pub occurrences-IsDistinct : (z : String) (xs : List String) → IsDistinct xs → occurrences z xs ≤ 1
occurrences-IsDistinct z [] d = omega arith
occurrences-IsDistinct z (x ∷ xs) d =
    ground (arith, occurrences-IsDistinct z xs d.1, str_eq_iff x z, (contains-occurrences z xs).1)
