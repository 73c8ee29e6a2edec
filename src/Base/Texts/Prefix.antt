-- ===== src/Base/Texts/Prefix.antt =====
-- What `strings.Replace(s, old, new, 1)` does to a text.
use Prim.Native.Char.{Char, code}
use Prim.Native.String.{String, ◌++◌ as ◌<>◌}
use text.Mathlib.TextLemmas.{nil-append, cons-append}
use text.Mathlib.TextEquality.{Char-path}
use mathlib.Core.Path.{◌≡◌, refl, sym, ap, ◌∙◌}
use mathlib.Core.Bool.{true, false}
use native.Mathlib.Omega.{arith}
use go_service_bao_fight.Base.{Bool-cases, ◌⊎◌, inl, inr}
use go_service_bao_fight.Base.Texts.{has_prefix, behind, contains, replace_first}

-- The text does not contain `old` and is given out as it is, or it does and `new` stands there.
abbrev pub IsReplaced : String → String → String → String → Type 0
IsReplaced s old new out =
    ((contains s old ≡ false) × (out ≡ s))
    ⊎ ((front rest : String) × (s ≡ front <> (old <> rest)) × (out ≡ front <> (new <> rest)))

has_prefix-behind : (s p : String) → has_prefix s p ≡ true → s ≡ p <> behind s p
unfolding has_prefix
has_prefix-behind s String.[] h = sym (nil-append s)
has_prefix-behind String.[] (String.◌∷◌ d p) h = absurd (ground (arith, h))
has_prefix-behind (String.◌∷◌ c s) (String.◌∷◌ d p) h =
    let same : code c ≡ code d = ground (arith, h) in
    let rest : has_prefix s p ≡ true = ground (arith, h) in
    ap (λ x. String.◌∷◌ x s) (Char-path c d same)
    ∙ ap (String.◌∷◌ d) (has_prefix-behind s p rest)
    ∙ sym (cons-append d p (behind s p))

pub replace_first_lem :
    (s : String) (d : Char) (p new : String)
    → IsReplaced s (String.◌∷◌ d p) new (replace_first s (String.◌∷◌ d p) new)
unfolding replace_first contains has_prefix
replace_first_lem String.[] d p new = inl (refl, refl)
replace_first_lem (String.◌∷◌ c s) d p new =
    let old = String.◌∷◌ d p in
    elim (Bool-cases (has_prefix (String.◌∷◌ c s) old)) [
      | inl h ↦ inr (
        String.[],
        behind (String.◌∷◌ c s) old,
        has_prefix-behind (String.◌∷◌ c s) old h ∙ sym (nil-append _),
        rw h (sym (nil-append _)),
      )
      | inr h ↦ elim (replace_first_lem s d p new) [
        | inl (none_there, e) ↦ inl (rw h none_there, rw h (ap (String.◌∷◌ c) e))
        | inr (front, rest, e, f) ↦ inr (
          String.◌∷◌ c front,
          rest,
          ap (String.◌∷◌ c) e ∙ sym (cons-append c front (old <> rest)),
          rw h (ap (String.◌∷◌ c) f ∙ sym (cons-append c front (new <> rest))),
        )
      ]
    ]
