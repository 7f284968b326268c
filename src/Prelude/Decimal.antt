-- ===== src/Prelude/Decimal.antt =====
-- Numbers as decimal texts: `to_string` and `parse` of the unsigned integers, and `trim().is_empty()`.
use Prim.Native.Char.{Char, code}
use Prim.Native.String.{String, [], ◌∷◌}
use mathlib.Core.Bool.{Bool, true, false, ◌&&◌, ◌||◌}
use mathlib.Core.Option.{Option, none, some}
use mathlib.Core.Logic.{inl, inr}
use mathlib.Core.Path.{◌≡◌, refl, ◌∙◌, ap}
use Prim.Native.Nat.{ℕ, zero, suc, ◌+◌, ◌-◌, ◌*◌, ◌/◌, ◌%◌, ◌^◌, ◌≤◌, ◌<◌}
use native.Mathlib.Omega.{arith}
use flare_server_core.Prelude.Tests.{ltb, ltb→lt, leb, ◌==◌, if◌then◌else◌, Bool-cases}

-- `char::is_whitespace`
abbrev pub is_whitespace : Char → Bool
is_whitespace c =
    let n = code c in
    (leb 9 n && leb n 13)
    || n == 32
    || n == 133
    || n == 160
    || n == 5760
    || (leb 8192 n && leb n 8202)
    || n == 8232
    || n == 8233
    || n == 8239
    || n == 8287
    || n == 12288

-- `s.trim().is_empty()`
unfoldable pub is_blank : String → Bool
is_blank [] = true
is_blank (c ∷ s) = is_whitespace c && is_blank s

abbrev pub cons_option : Char → Option String → Option String
cons_option c none = none
cons_option c (some s) = some (c ∷ s)

-- `s.ends_with('*')`, with the text before the star.
unfoldable pub ends_with_star : String → Option String
ends_with_star [] = none
ends_with_star (c ∷ []) = if code c == 42 then some [] else none
ends_with_star (c ∷ d ∷ s) = cons_option c (ends_with_star (d ∷ s))

abbrev pub digit : ℕ → Char
digit zero = "0"
digit (suc zero) = "1"
digit (suc (suc zero)) = "2"
digit (suc (suc (suc zero))) = "3"
digit (suc (suc (suc (suc zero)))) = "4"
digit (suc (suc (suc (suc (suc zero))))) = "5"
digit (suc (suc (suc (suc (suc (suc zero)))))) = "6"
digit (suc (suc (suc (suc (suc (suc (suc zero))))))) = "7"
digit (suc (suc (suc (suc (suc (suc (suc (suc zero)))))))) = "8"
digit _ = "9"

-- `to_string`, the digits in front of `rest`; a number has fewer digits than its fuel.
unfoldable pub digits : (fuel n : ℕ) → String → String
digits zero n rest = rest
digits (suc fuel) n rest =
    if ltb n 10 then digit n ∷ rest else digits fuel (n / 10) (digit (n % 10) ∷ rest)

-- `to_string` of a `u64` or a smaller unsigned integer
unfoldable pub to_string : ℕ → String
to_string n = digits 20 n []

-- A digit behind a number, where the result is below the bound.
abbrev pub push_digit : (bound v : ℕ) → Char → Option ℕ
push_digit bound v c =
    if leb 48 (code c) && leb (code c) 57 && ltb (v * 10 + (code c - 48)) bound
    then some (v * 10 + (code c - 48))
    else none

unfoldable pub parse_digits : (bound v : ℕ) → String → Option ℕ
parse_digits bound v [] = some v
parse_digits bound v (c ∷ s) = elim (push_digit bound v c) [
  | none ↦ none
  | some w ↦ parse_digits bound w s
]

unfoldable pub parse_some_digits : (bound : ℕ) → String → Option ℕ
parse_some_digits bound [] = none
parse_some_digits bound (c ∷ s) = parse_digits bound 0 (c ∷ s)

-- `parse` to an unsigned integer below the bound: digits, behind a `+` or not.
unfoldable pub parse : (bound : ℕ) → String → Option ℕ
unfolding parse_some_digits
parse bound [] = none
parse bound (c ∷ s) =
    if code c == 43 then parse_some_digits bound s else parse_some_digits bound (c ∷ s)

code-digit : (d : ℕ) → d < 10 → code (digit d) ≡ 48 + d
code-digit zero h = refl
code-digit (suc zero) h = refl
code-digit (suc (suc zero)) h = refl
code-digit (suc (suc (suc zero))) h = refl
code-digit (suc (suc (suc (suc zero)))) h = refl
code-digit (suc (suc (suc (suc (suc zero))))) h = refl
code-digit (suc (suc (suc (suc (suc (suc zero)))))) h = refl
code-digit (suc (suc (suc (suc (suc (suc (suc zero))))))) h = refl
code-digit (suc (suc (suc (suc (suc (suc (suc (suc zero)))))))) h = refl
code-digit (suc (suc (suc (suc (suc (suc (suc (suc (suc zero))))))))) h = refl
code-digit (suc (suc (suc (suc (suc (suc (suc (suc (suc (suc d)))))))))) h = absurd (omega arith)

push_digit-digit :
    (bound v d : ℕ) → d < 10 → v * 10 + d < bound → push_digit bound v (digit d) ≡ some (v * 10 + d)
push_digit-digit bound v d h lt = rw (code-digit d h) (ground arith)

parse_digits-digit :
    (bound v d : ℕ) (rest : String)
    → d < 10
    → v * 10 + d < bound
    → parse_digits bound v (digit d ∷ rest) ≡ parse_digits bound (v * 10 + d) rest
unfolding parse_digits
parse_digits-digit bound v d rest h lt =
    ap (λ o. elim o [ none ↦ none | some w ↦ parse_digits bound w rest ])
      (push_digit-digit bound v d h lt)

digits_fuel : (k n : ℕ) → n < 10 ^ suc k → 10 ≤ n → 1 ≤ k
digits_fuel zero n f ten = absurd (omega arith)
digits_fuel (suc k) n f ten = omega arith

parse_digits-digits :
    (bound fuel n : ℕ) (rest : String)
    → n < bound
    → n < 10 ^ fuel
    → 1 ≤ fuel
    → parse_digits bound 0 (digits fuel n rest) ≡ parse_digits bound n rest
unfolding digits
parse_digits-digits bound zero n rest h f one = absurd (omega arith)
parse_digits-digits bound (suc fuel) n rest h f one = elim (Bool-cases (ltb n 10)) [
  | inl small ↦ rw small (
      parse_digits-digit bound 0 n rest (ltb→lt n 10 small) (omega arith)
      ∙ ap (λ v. parse_digits bound v rest) (omega arith))
  | inr large ↦
      let ten : 10 ≤ n = ground arith in
      let bits : 10 ^ suc fuel ≡ 10 ^ fuel * 10 = omega arith in
      rw large (
        parse_digits-digits bound fuel (n / 10) (digit (n % 10) ∷ rest) (omega arith) (omega arith)
          (digits_fuel fuel n f ten)
        ∙ parse_digits-digit bound (n / 10) (n % 10) rest (omega arith) (omega arith)
        ∙ ap (λ v. parse_digits bound v rest) (omega arith))
]

parse-digits :
    (bound fuel n : ℕ) (rest : String)
    → 1 ≤ fuel
    → n < 10 ^ fuel
    → parse bound (digits fuel n rest) ≡ parse_digits bound 0 (digits fuel n rest)
unfolding parse parse_some_digits digits
parse-digits bound zero n rest one f = absurd (omega arith)
parse-digits bound (suc fuel) n rest one f = elim (Bool-cases (ltb n 10)) [
  | inl small ↦
      let plain : (code (digit n) == 43) ≡ false =
        rw (code-digit n (ltb→lt n 10 small)) (ground arith) in
      rw (small, plain) refl
  | inr large ↦ rw large (
      parse-digits bound fuel (n / 10) (digit (n % 10) ∷ rest) (digits_fuel fuel n f (ground arith))
        (omega arith))
]

-- A number below 2 ^ 64 that is printed is read back, where the bound of the reader allows it.
pub parse-to_string : (bound n : ℕ) → n < bound → n < 2 ^ 64 → parse bound (to_string n) ≡ some n
unfolding to_string parse_digits
parse-to_string bound n h w =
    parse-digits bound 20 n [] (omega arith) (omega arith)
    ∙ parse_digits-digits bound 20 n [] h (omega arith) (omega arith)
