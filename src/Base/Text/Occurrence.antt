-- ===== src/Base/Text/Occurrence.antt =====
-- What `includes` finds.
use Prim.Native.String.{String}
use mathlib.Core.Path.{◌≡◌, refl, sym, ◌∙◌, ap}
use mathlib.Core.Logic.{inl, inr, ◌↔◌}
use mathlib.Core.Bool.{true}
use native.Mathlib.Omega.{arith}
use text.Mathlib.Text.{starts_with}
use text.Mathlib.TextEquality.{starts_with_iff}
use text.Mathlib.TextLemmas.{nil-append, cons-append}
use guardian_os_ai.Base.Tests.{Bool-cases}
use guardian_os_ai.Base.Text.{◌^^◌, includes}

-- The part stands somewhere in the text.
abbrev pub OccursIn : String → String → Type 0
OccursIn text part = (before after : String) × (text ≡ before ^^ (part ^^ after))

includes-OccursIn : (text part : String) → includes text part ≡ true → OccursIn text part
unfolding includes
includes-OccursIn String.[] part h =
    let (rest, e) = (starts_with_iff String.[] part).0 h in
    ("", rest, sym (nil-append (part ^^ rest) ∙ e))
includes-OccursIn (String.◌∷◌ c s) part h = elim (Bool-cases (starts_with (String.◌∷◌ c s) part)) [
  | inl begins ↦
      let (rest, e) = (starts_with_iff (String.◌∷◌ c s) part).0 begins in
      ("", rest, sym (nil-append (part ^^ rest) ∙ e))
  | inr other ↦
      let (before, after, e) = includes-OccursIn s part (rw other at h) in
      (
        String.◌∷◌ c before,
        after,
        ap (λ t. String.◌∷◌ c t) e ∙ sym (cons-append c before (part ^^ after)),
      )
]

OccursIn-includes :
    (text before part after : String) → text ≡ before ^^ (part ^^ after) → includes text part ≡ true
unfolding includes
OccursIn-includes String.[] String.[] part after e =
    (starts_with_iff String.[] part).1 (after, sym (e ∙ nil-append (part ^^ after)))
OccursIn-includes String.[] (String.◌∷◌ d before) part after e =
    let e' : String.[] ≡ String.◌∷◌ d (before ^^ (part ^^ after)) =
      e ∙ cons-append d before (part ^^ after) in
    cc
OccursIn-includes (String.◌∷◌ c s) String.[] part after e =
    rw ((starts_with_iff (String.◌∷◌ c s) part).1 (after, sym (e ∙ nil-append (part ^^ after))))
      refl
OccursIn-includes (String.◌∷◌ c s) (String.◌∷◌ d before) part after e =
    let e' : String.◌∷◌ c s ≡ String.◌∷◌ d (before ^^ (part ^^ after)) =
      e ∙ cons-append d before (part ^^ after) in
    let found = OccursIn-includes s before part after (cc) in ground (arith, found)

pub includes_iff : (text part : String) → (includes text part ≡ true) ↔ OccursIn text part
includes_iff text part =
    (includes-OccursIn text part, λ (before, after, e). OccursIn-includes text before part after e)
