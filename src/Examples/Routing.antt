-- ===== src/Examples/Routing.antt =====
-- A router that keeps to the documented choice, for the examples.
use text.Mathlib.TextLemmas.{nil-append, cons-append}
use guardian_os_ai.Base.{
  ◌≡◌, ◌≢◌, ◌⊎◌, refl, sym, ap, ◌∙◌, true, false, ◌&&◌, String, List, [], ◌∷◌, Option, none, some,
  any, str_eq, if◌then◌else◌, All, Any, here, there, ◌^^◌, code, ◌==◌, Bool-cases, inl, inr, arith,
  eq_iff, eq_refl, lacks, lacks-append,
}
use guardian_os_ai.App.{Router, Match}
use guardian_os_ai.App.Routing.{IsRouter, is_static}

-- What stands before and after the first colon.
split_colon : String → Option (String × String)
split_colon String.[] = none
split_colon (String.◌∷◌ c s) =
    let rest = split_colon s in
    if code c == b':'
    then some ("", s)
    else elim rest [ none ↦ none | some (a, b) ↦ some (String.◌∷◌ c a, b) ]

strip : String → String → Option String
strip String.[] path = some path
strip (String.◌∷◌ c p) String.[] = none
strip (String.◌∷◌ c p) (String.◌∷◌ d path) =
    let rest = strip p path in if code c == code d then rest else none

fill : String → Option (String × String) → String → Option Match
fill p none path = none
fill p (some (before, name)) path = elim (strip before path) [
  | none ↦ none
  | some v ↦ some (record { pattern = p; params = (name, v) ∷ [] })
]

first_of : Option Match → Option Match → Option Match
first_of none o = o
first_of (some m) o = some m

by_parameter : List String → String → Option Match
by_parameter [] path = none
by_parameter (p ∷ ps) path = first_of (fill p (split_colon p) path) (by_parameter ps path)

pub plain_router : Router
plain_router ps path =
    if is_static path && any (λ p. str_eq p path) ps
    then some (record { pattern = path; params = [] })
    else by_parameter ps path

split_colon-static : (p : String) → lacks b':' p ≡ true → split_colon p ≡ none
unfolding split_colon
split_colon-static String.[] h = refl
split_colon-static (String.◌∷◌ c s) h = ground (arith, h, split_colon-static s)

slash_colon : (name : String) → "/:" ^^ name ≡ String.◌∷◌ "/" (String.◌∷◌ ":" name)
slash_colon name =
    cons-append "/" ":" name
    ∙ ap (String.◌∷◌ "/") (cons-append ":" "" name ∙ ap (String.◌∷◌ ":") (nil-append name))

slash : (value : String) → "/" ^^ value ≡ String.◌∷◌ "/" value
slash value = cons-append "/" "" value ∙ ap (String.◌∷◌ "/") (nil-append value)

split_colon-append :
    (prefix name : String)
    → lacks b':' prefix ≡ true
    → split_colon (prefix ^^ "/:" ^^ name) ≡ some (prefix ^^ "/", name)
unfolding split_colon
split_colon-append String.[] name h = rw (nil-append ("/:" ^^ name), slash_colon name) refl
split_colon-append (String.◌∷◌ c s) name h =
    let tail : lacks b':' s ≡ true = ground (arith, h) in
    let head : (code c == b':') ≡ false = ground (arith, h) in
    rw (cons-append c s ("/:" ^^ name), cons-append c s "/")
      (rw (split_colon-append s name tail, head) refl)

strip-append : (prefix value : String) → strip (prefix ^^ "/") (prefix ^^ "/" ^^ value) ≡ some value
unfolding strip
strip-append String.[] value = rw (nil-append ("/" ^^ value), slash value) refl
strip-append (String.◌∷◌ c s) value =
    rw (cons-append c s ("/" ^^ value), cons-append c s "/") (ground (arith, strip-append s value))

fill-wildcard : (p : String) → fill "*" (split_colon "*") p ≡ none
unfolding fill split_colon
fill-wildcard p = refl

module _ (prefix name value : String) (plain_prefix : is_static prefix ≡ true) where
  abbrev dynamic : String
  dynamic = prefix ^^ "/:" ^^ name

  abbrev path : String
  path = prefix ^^ "/" ^^ value

  abbrev found : Match
  found = record { pattern = dynamic; params = (name, value) ∷ [] }

  abbrev Fits : String → Type 0
  Fits p = (p ≡ dynamic) ⊎ (p ≡ "*") ⊎ ((is_static p ≡ true) × (p ≢ path))

  fill-dynamic : fill dynamic (split_colon dynamic) path ≡ some found
  unfolding fill
  fill-dynamic =
      rw
        (
          split_colon-append prefix name (ground (arith, plain_prefix)),
          fill,
          strip-append prefix value,
        )
        refl

  fill-static : (p : String) → is_static p ≡ true → fill p (split_colon p) path ≡ none
  unfolding fill
  fill-static p static = rw (split_colon-static p (ground (arith, static))) refl

  by_parameter-finds :
      (ps : List String)
      → Any (λ p. p ≡ dynamic) ps
      → All Fits ps
      → by_parameter ps path ≡ some found
  unfolding by_parameter first_of
  by_parameter-finds [] h k = elim h [ ]
  by_parameter-finds (p ∷ ps) (here e) (fits, k) = rw (e, fill-dynamic) refl
  by_parameter-finds (p ∷ ps) (there h) (inl e, k) = rw (e, fill-dynamic) refl
  by_parameter-finds (p ∷ ps) (there h) (inr (inl e), k) =
      rw (e, fill-wildcard path) (by_parameter-finds ps h k)
  by_parameter-finds (p ∷ ps) (there h) (inr (inr (static, other)), k) =
      rw (fill-static p static) (by_parameter-finds ps h k)

  dynamic-not_static : is_static dynamic ≡ false
  dynamic-not_static = rw (lacks-append b':' prefix ("/:" ^^ name), slash_colon name) (ground arith)

  -- No pattern that fits is spelled like the path, if the path is spelled like a static pattern.
  none_spelled :
      (ps : List String) → All Fits ps → is_static path ≡ true → any (λ p. str_eq p path) ps ≡ false
  none_spelled [] k static = refl
  none_spelled (p ∷ ps) (fits, k) static =
      let apart : p ≢ path = elim fits [
        | inl e ↦ λ same.
            let is_path : dynamic ≡ path = sym e ∙ same in
            let both : true ≡ false =
              sym static ∙ ap is_static (sym is_path) ∙ dynamic-not_static in
            cc
        | inr (inl e) ↦ λ same.
            let is_path : "*" ≡ path = sym e ∙ same in
            let both : true ≡ is_static "*" = sym static ∙ ap is_static (sym is_path) in cc
        | inr (inr (plain, other)) ↦ other
      ] in
      elim (Bool-cases (str_eq p path)) [
        | inl e ↦ absurd (apart ((eq_iff p path).0 e))
        | inr e ↦ rw e (none_spelled ps k static)
      ]

  not_spelled :
      (ps : List String) → All Fits ps → (is_static path && any (λ p. str_eq p path) ps) ≡ false
  not_spelled ps k = elim (Bool-cases (is_static path)) [
    | inl static ↦ rw (static, none_spelled ps k static) refl
    | inr other ↦ rw other refl
  ]

  plain_router-dynamic :
      (ps : List String)
      → Any (λ p. p ≡ dynamic) ps
      → All Fits ps
      → plain_router ps path ≡ some found
  unfolding plain_router
  plain_router-dynamic ps there_is fits =
      rw (not_spelled ps fits) (by_parameter-finds ps there_is fits)

any_spelled :
    (ps : List String) (path : String) → Any (λ p. p ≡ path) ps → any (λ p. str_eq p path) ps ≡ true
any_spelled [] path h = elim h [ ]
any_spelled (p ∷ ps) path (here e) = rw (e, eq_refl path) refl
any_spelled (p ∷ ps) path (there h) = ground (arith, any_spelled ps path h)

pub plain_router-IsRouter : IsRouter plain_router
unfolding plain_router
plain_router-IsRouter = record {
  static = λ ps path there_is plain. rw (plain, any_spelled ps path there_is) refl;
  dynamic = λ ps prefix name value there_is fits plain_prefix segment.
      plain_router-dynamic prefix name value plain_prefix ps there_is fits;
}
