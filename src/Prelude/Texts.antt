-- ===== src/Prelude/Texts.antt =====
-- Cutting and joining texts: `strip_prefix`, `trim`, `split` and `join`.
use Prim.Native.Char.{Char, code}
use Prim.Native.String.{String, [], ◌∷◌, ◌++◌ as text_append}
use Prim.Native.Nat.{ℕ}
use mathlib.Core.Path.{◌≡◌, refl, ap, ◌∙◌}
use mathlib.Core.Bool.{Bool, true, false}
use mathlib.Core.Logic.{inl, inr}
use mathlib.Core.Option.{Option, none, some}
use mathlib.Core.List.{List, [] as nil, ◌∷◌ as cons}
use text.Mathlib.TextLemmas.{nil-append, cons-append, append-eq-nil_iff}
use native.Mathlib.Omega.{arith}
use flare_server_core.Prelude.Tests.{◌==◌, if◌then◌else◌, str_eq, str_eq_iff, Bool-cases}
use flare_server_core.Prelude.Lists.{all}
use flare_server_core.Prelude.Decimal.{is_whitespace}

-- `is_empty`
abbrev pub is_empty : String → Bool
is_empty s = str_eq s ""

-- `s.strip_prefix(p)`
unfoldable pub strip_prefix : String → String → Option String
strip_prefix s [] = some s
strip_prefix [] (p ∷ ps) = none
strip_prefix (c ∷ s) (p ∷ ps) = if code c == code p then strip_prefix s ps else none

unfoldable pub trim_start : String → String
trim_start [] = []
trim_start (c ∷ s) = if is_whitespace c then trim_start s else c ∷ s

cons_end : Char → String → String
cons_end c [] = if is_whitespace c then [] else c ∷ []
cons_end c (d ∷ s) = c ∷ d ∷ s

unfoldable pub trim_end : String → String
unfolding cons_end
trim_end [] = []
trim_end (c ∷ s) = cons_end c (trim_end s)

-- `trim`
unfoldable pub trim : String → String
unfolding trim_start trim_end
trim s = trim_end (trim_start s)

unfoldable pub push_first : Char → List String → List String
push_first c nil = cons (c ∷ []) nil
push_first c (cons x xs) = cons (c ∷ x) xs

-- `split` at a character, given by its code.
unfoldable pub split : ℕ → String → List String
unfolding push_first
split d [] = cons [] nil
split d (c ∷ s) = if code c == d then cons [] (split d s) else push_first c (split d s)

-- `join` with a character
unfoldable pub join : Char → List String → String
join d nil = []
join d (cons x nil) = x
join d (cons x (cons y ys)) = text_append x (d ∷ join d (cons y ys))

pub strip_prefix-append : (p s : String) → strip_prefix (text_append p s) p ≡ some s
unfolding strip_prefix
strip_prefix-append [] s = ap some (nil-append s)
strip_prefix-append (c ∷ p) s = rw (cons-append c p s) (ground (arith, strip_prefix-append p s))

-- A text without the character.
unfoldable pub lacks : ℕ → String → Bool
lacks d [] = true
lacks d (c ∷ s) = if code c == d then false else lacks d s

split-lacks : (d : ℕ) (x : String) → lacks d x ≡ true → split d x ≡ cons x nil
unfolding split lacks push_first
split-lacks d [] h = refl
split-lacks d (c ∷ s) h = ground (arith, split-lacks d s)

split-append :
    (d : Char) (x rest : String)
    → lacks (code d) x ≡ true
    → split (code d) (text_append x (d ∷ rest)) ≡ cons x (split (code d) rest)
unfolding split lacks push_first
split-append d [] rest h = rw (nil-append (d ∷ rest)) (ground arith)
split-append d (c ∷ s) rest h =
    rw (cons-append c s (d ∷ rest)) (ground (arith, split-append d s rest))

pub split-join :
    (d : Char) (x : String) (xs : List String)
    → all (lacks (code d)) (cons x xs) ≡ true
    → split (code d) (join d (cons x xs)) ≡ cons x xs
unfolding join
split-join d x nil h = split-lacks (code d) x (ground arith)
split-join d x (cons y ys) h =
    split-append d x (join d (cons y ys)) (ground arith)
    ∙ ap (cons x) (split-join d y ys (ground arith))

pub is_empty-join :
    (d : Char) (x : String) (xs : List String)
    → is_empty x ≡ false
    → is_empty (join d (cons x xs)) ≡ false
unfolding join
is_empty-join d x nil full = full
is_empty-join d x (cons y ys) full =
    let all_of = text_append x (d ∷ join d (cons y ys)) in
    elim (Bool-cases (is_empty all_of)) [
      | inl none_of ↦
          let nothing : x ≡ [] = (append-eq-nil_iff.0 ((str_eq_iff all_of "").0 none_of)).0 in
          absurd (ground (arith, full, (str_eq_iff x "").1 nothing))
      | inr e ↦ e
    ]

cons_some : Char → Option String → Option String
cons_some c none = none
cons_some c (some s) = some (c ∷ s)

-- `s.strip_suffix(p)`, for a suffix that is not empty
unfoldable pub strip_suffix : String → String → Option String
unfolding cons_some
strip_suffix p [] = if str_eq p [] then some [] else none
strip_suffix p (c ∷ s) = if str_eq p (c ∷ s) then some [] else cons_some c (strip_suffix p s)
