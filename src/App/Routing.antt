-- ===== src/App/Routing.antt =====
-- What the application relies on of react-router, and where its own paths lead.
use guardian_os_ai.Base.{
  ℕ, ◌≡◌, ◌≢◌, ◌⊎◌, refl, Bool, true, false, ◌&&◌, String, List, [], ◌∷◌, some, Any, All, here,
  there, code, ◌==◌, leb, ◌||◌, ◌^^◌, truthy, lacks, inl, inr,
}
use package.text.Mathlib.Text.{starts_with}
use text.Mathlib.TextLemmas.{append_assoc}
use text.Mathlib.TextPositions.{starts_with-append}
use guardian_os_ai.Platform.{get_item}
use guardian_os_ai.App.{Router, patterns, page_at, threats}

-- A pattern without a parameter and without a wildcard.
abbrev pub is_static : String → Bool
is_static p = lacks b':' p && lacks b'*' p

-- A letter, a digit, "-" or "_", which no URL encodes.
abbrev is_plain : ℕ → Bool
is_plain c =
    (leb b'a' c && leb c b'z')
    || (leb b'A' c && leb c b'Z')
    || (leb b'0' c && leb c b'9')
    || c == b'-'
    || c == b'_'

abbrev all_plain : String → Bool
all_plain String.[] = true
all_plain (String.◌∷◌ c s) = is_plain (code c) && all_plain s

-- One part of a path that stands for itself.
abbrev pub is_segment : String → Bool
is_segment s = truthy s && all_plain s

-- The documented choice among the patterns of a table: a pattern without parameters is taken for the path
-- that is spelled like it, before any other; the one pattern that ends in a parameter is taken for a
-- path that has a plain part in its place, unless a pattern is spelled like the path.
pub record IsRouter (R : Router) : Type 0 where
  pub static :
      (ps : List String) (path : String)
      → Any (λ p. p ≡ path) ps
      → is_static path ≡ true
      → R ps path ≡ some (record { pattern = path; params = [] })
  pub dynamic :
      (ps : List String) (prefix name value : String)
      → Any (λ p. p ≡ prefix ^^ "/:" ^^ name) ps
      → All
          (λ p.
            (p ≡ prefix ^^ "/:" ^^ name)
            ⊎ (p ≡ "*")
            ⊎ ((is_static p ≡ true) × (p ≢ prefix ^^ "/" ^^ value)))
          ps
      → is_static prefix ≡ true
      → is_segment value ≡ true
      → R ps (prefix ^^ "/" ^^ value)
        ≡ some (record { pattern = prefix ^^ "/:" ^^ name; params = (name, value) ∷ [] })

report_path-Differs :
    (p id : String) → starts_with p "/threats/" ≡ false → p ≢ "/threats" ^^ "/" ^^ id
report_path-Differs p id e same =
    let begins : starts_with p "/threats/" ≡ true =
      rw (same, ← append_assoc "/threats" "/" id) (starts_with-append "/threats/" id) in
    cc

abbrev IsOther : String → String → Type 0
IsOther id p =
    (p ≡ "/threats" ^^ "/:" ^^ "reportId")
    ⊎ (p ≡ "*")
    ⊎ ((is_static p ≡ true) × (p ≢ "/threats" ^^ "/" ^^ id))

-- No other pattern of the application is taken for the path of a report.
others-IsOther : (id : String) → All (IsOther id) patterns
others-IsOther id =
    let far : (p : String) → is_static p ≡ true → starts_with p "/threats/" ≡ false → IsOther id p =
      λ p a b. inr (inr (a, report_path-Differs p id b)) in
    (
      far "/" refl refl,
      (
        far "/threats" refl refl,
        (
          inl refl,
          (
            far "/kernel" refl refl,
            (
              far "/processes" refl refl,
              (
                far "/analysis" refl refl,
                (
                  far "/response" refl refl,
                  (far "/health" refl refl, (far "/settings" refl refl, (inr (inl refl), tt))),
                ),
              ),
            ),
          ),
        ),
      ),
    )

module _ (R : Router) (router : IsRouter R) where
  pub page_at-report :
      (id : String)
      → is_segment id ≡ true
      → page_at R ("/threats/" ^^ id)
        ≡ some (record { page = threats; framed = true; report_id = some id })
  unfolding page_at get_item
  page_at-report id plain =
      rw
        (
          append_assoc "/threats" "/" id,
          router.dynamic patterns "/threats" "reportId" id (there (there (here refl)))
              (others-IsOther id) refl plain,
        )
        refl
