-- ===== src/Prelude/Maps.antt =====
-- `HashMap<String, V>` as an association list. Rust leaves the order of iteration open.
use Prim.Native.String.{String}
use mathlib.Core.Path.{◌≡◌, refl}
use mathlib.Core.Bool.{Bool, true, false}
use mathlib.Core.Option.{Option, none, some}
use mathlib.Core.List.{List, [], ◌∷◌, map}
use native.Mathlib.Omega.{arith}
use flare_server_core.Prelude.Lists.{contains}
use flare_server_core.Prelude.Tests.{str_eq, str_eq_iff, if◌then◌else◌}

abbrev pub StringMap {ℓ} : Type ℓ → Type ℓ
StringMap V = List (String × V)

module _ {ℓ} {V : Type ℓ} where
  unfoldable pub get : String → StringMap V → Option V
  get k [] = none
  get k ((j, v) ∷ m) = if str_eq j k then some v else get k m

  unfoldable pub insert : String → V → StringMap V → StringMap V
  insert k v [] = (k, v) ∷ []
  insert k v ((j, w) ∷ m) = if str_eq j k then (j, v) ∷ m else (j, w) ∷ insert k v m

  unfoldable pub remove : String → StringMap V → StringMap V
  remove k [] = []
  remove k ((j, w) ∷ m) = if str_eq j k then remove k m else (j, w) ∷ remove k m

  -- A write through `get_mut`.
  unfoldable pub adjust : String → (V → V) → StringMap V → StringMap V
  adjust k f [] = []
  adjust k f ((j, w) ∷ m) = if str_eq j k then (j, f w) ∷ m else (j, w) ∷ adjust k f m

  abbrev pub is_some : Option V → Bool
  is_some none = false
  is_some (some v) = true

  abbrev pub unwrap_or : V → Option V → V
  unwrap_or d none = d
  unwrap_or d (some v) = v

  pub is_some-none : (o : Option V) → is_some o ≡ false → o ≡ none
  is_some-none none h = refl
  is_some-none (some v) h = cc

  abbrev pub contains_key : String → StringMap V → Bool
  contains_key k m = is_some (get k m)

  abbrev pub keys : StringMap V → List String
  keys m = map (λ e. e.0) m

  abbrev pub values : StringMap V → List V
  values m = map (λ e. e.1) m

  pub get-insert :
      (k j : String) (v : V) (m : StringMap V)
      → get j (insert k v m) ≡ (if str_eq k j then some v else get j m)
  unfolding get insert
  get-insert k j v [] = refl
  get-insert k j v ((i, w) ∷ m) =
      ground (arith, str_eq_iff k j, str_eq_iff i k, str_eq_iff i j, get-insert k j v m)

  pub get-remove :
      (k j : String) (m : StringMap V) → get j (remove k m) ≡ (if str_eq k j then none else get j m)
  unfolding get remove
  get-remove k j [] = ground arith
  get-remove k j ((i, w) ∷ m) =
      ground (arith, str_eq_iff k j, str_eq_iff i k, str_eq_iff i j, get-remove k j m)

module _ {V : Type 0} where
  pub get-adjust_self :
      (k : String) (f : V → V) (m : StringMap V) (v : V)
      → get k m ≡ some v
      → get k (adjust k f m) ≡ some (f v)
  unfolding get adjust
  get-adjust_self k f [] v h = ground arith
  get-adjust_self k f ((i, w) ∷ m) v h = ground (arith, str_eq_iff i k, get-adjust_self k f m v)

  pub get-adjust_ne :
      (k j : String) (f : V → V) (m : StringMap V)
      → str_eq k j ≡ false
      → get j (adjust k f m) ≡ get j m
  unfolding get adjust
  get-adjust_ne k j f [] h = refl
  get-adjust_ne k j f ((i, w) ∷ m) h =
      ground (arith, str_eq_iff k j, str_eq_iff i k, str_eq_iff i j, get-adjust_ne k j f m)

  pub keys-adjust : (k : String) (f : V → V) (m : StringMap V) → keys (adjust k f m) ≡ keys m
  unfolding adjust
  keys-adjust k f [] = refl
  keys-adjust k f ((i, w) ∷ m) = ground (arith, keys-adjust k f m)

module _ {V : Type 0} where
  -- Each key stands once, as in a hash map.
  abbrev pub IsUnique : StringMap V → Type 0
  IsUnique [] = Unit
  IsUnique ((k, v) ∷ m) = (is_some (get k m) ≡ false) × IsUnique m

  pub insert-IsUnique :
      (k : String) (v : V) (m : StringMap V) → IsUnique m → IsUnique (insert k v m)
  unfolding get insert
  insert-IsUnique k v [] u = ground arith
  insert-IsUnique k v ((j, w) ∷ m) u =
      ground (arith, insert-IsUnique k v m u.1, get-insert k j v m, str_eq_iff k j, str_eq_iff j k)

  pub is_some-get-adjust :
      (k j : String) (f : V → V) (m : StringMap V)
      → is_some (get j (adjust k f m)) ≡ is_some (get j m)
  unfolding get adjust
  is_some-get-adjust k j f [] = refl
  is_some-get-adjust k j f ((i, w) ∷ m) = ground (arith, is_some-get-adjust k j f m)

  pub adjust-IsUnique :
      (k : String) (f : V → V) (m : StringMap V) → IsUnique m → IsUnique (adjust k f m)
  unfolding adjust
  adjust-IsUnique k f [] u = tt
  adjust-IsUnique k f ((j, w) ∷ m) u =
      ground (arith, adjust-IsUnique k f m u.1, is_some-get-adjust k j f m)

  pub remove-IsUnique : (k : String) (m : StringMap V) → IsUnique m → IsUnique (remove k m)
  unfolding remove
  remove-IsUnique k [] u = tt
  remove-IsUnique k ((j, w) ∷ m) u = ground (arith, remove-IsUnique k m u.1, get-remove k j m)

  pub is_some-get-keys : (k : String) (m : StringMap V) → is_some (get k m) ≡ contains k (keys m)
  unfolding get
  is_some-get-keys k [] = refl
  is_some-get-keys k ((j, w) ∷ m) = ground (arith, is_some-get-keys k m)
