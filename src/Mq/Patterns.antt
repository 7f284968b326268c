-- ===== src/Mq/Patterns.antt =====
-- The patterns of topics of dispatcher.rs, as texts.
use Prim.Native.Char.{code}
use Prim.Native.String.{String, [], ◌∷◌, ◌++◌}
use text.Mathlib.Text.{starts_with}
use text.Mathlib.TextBridge.{IsPrefix}
use text.Mathlib.TextLemmas.{nil-append, cons-append}
use text.Mathlib.TextEquality.{Char-path, starts_with_iff}
use flare_server_core.Prelude.{
  ◌≡◌, ◌↔◌, refl, sym, ap, ◌∙◌, true, false, Option, none, some, ◌==◌, arith, Bool-cases,
  Option-cases, inl, inr,
}
use flare_server_core.Prelude.Decimal.{ends_with_star, cons_option}
use flare_server_core.Mq.Dispatcher.{matches}

-- The pattern is a beginning of the topic and a star.
abbrev pub Covers : String → String → Type 0
Covers pattern topic = (prefix : String) × (pattern ≡ prefix ++ "*") × IsPrefix prefix topic

-- `s` ends with a star, behind `prefix`.
ends_with_star-some : (s prefix : String) → ends_with_star s ≡ some prefix → s ≡ prefix ++ "*"
unfolding ends_with_star
ends_with_star-some [] prefix e = absurd (cc)
ends_with_star-some (c ∷ []) prefix e = elim (Bool-cases (code c == 42)) [
  | inl star ↦
      let same : some [] ≡ some prefix = rw (ends_with_star, star) at e in
      let here : [] ≡ prefix = cc in
      let it : c ≡ "*" = Char-path c "*" (ground (arith, star)) in
      ap (λ x. x ∷ []) it ∙ sym (nil-append "*") ∙ ap (λ x. x ++ "*") here
  | inr other ↦ absurd (let none_left : none ≡ some prefix = rw (ends_with_star, other) at e in cc)
]
ends_with_star-some (c ∷ d ∷ s) prefix e = elim (Option-cases (ends_with_star (d ∷ s))) [
  | inl missing ↦
      absurd (let none_left : none ≡ some prefix = ap (cons_option c) (sym missing) ∙ e in cc)
  | inr (p, there) ↦
      let same : some (c ∷ p) ≡ some prefix = ap (cons_option c) (sym there) ∙ e in
      let here : c ∷ p ≡ prefix = cc in
      ap (λ x. c ∷ x) (ends_with_star-some (d ∷ s) p there)
      ∙ sym (cons-append c p "*")
      ∙ ap (λ x. x ++ "*") here
]

ends_with_star-append : (prefix : String) → ends_with_star (prefix ++ "*") ≡ some prefix
unfolding ends_with_star
ends_with_star-append [] = ap ends_with_star (nil-append "*")
ends_with_star-append (c ∷ []) =
    ap ends_with_star (cons-append c [] "*" ∙ ap (λ x. c ∷ x) (nil-append "*"))
ends_with_star-append (c ∷ d ∷ s) =
    ap ends_with_star (cons-append c (d ∷ s) "*" ∙ ap (λ x. c ∷ x) (cons-append d s "*"))
    ∙ ap (cons_option c)
        (ap ends_with_star (sym (cons-append d s "*")) ∙ ends_with_star-append (d ∷ s))

-- `find_handler` matches a topic exactly against the patterns that cover it.
pub matches_iff : (topic pattern : String) → (matches topic pattern ≡ true) ↔ Covers pattern topic
matches_iff topic pattern = (to (ends_with_star pattern) refl, from)
  where
    to :
        (o : Option String)
        → ends_with_star pattern ≡ o
        → (elim o [ none ↦ false | some prefix ↦ starts_with topic prefix ]) ≡ true
        → Covers pattern topic
    to none e hit = absurd (cc)
    to (some prefix) e hit =
        (prefix, ends_with_star-some pattern prefix e, (starts_with_iff topic prefix).0 hit)

    from : Covers pattern topic → matches topic pattern ≡ true
    from (prefix, split, begins) =
        let star : ends_with_star pattern ≡ some prefix =
          ap ends_with_star split ∙ ends_with_star-append prefix in
        ap (λ (o : Option String). elim o [ none ↦ false | some prefix ↦ starts_with topic prefix ])
          star
        ∙ (starts_with_iff topic prefix).1 begins
