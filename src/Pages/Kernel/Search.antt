-- ===== src/Pages/Kernel/Search.antt =====
-- The stream that is shown against its two filters.
use guardian_os_ai.Base.{
  ◌≡◌, refl, ◌⊎◌, ◌↔◌, Bool, true, false, not, ◌&&◌, ◌||◌, String, List, [], ◌∷◌, Option, none,
  some, filter, truthy, trim, decimal, OccursIn, includes_iff, if◌then◌else◌, arith, filter-true,
  eq_iff, ◌∙◌, sym,
}
use guardian_os_ai.Platform.{Platform}
use guardian_os_ai.Api.Types.{EventKind, KernelEvent, Json, kind_eq, kind_name}
use guardian_os_ai.Pages.Kernel.{keep_kind, matches_query, filtered, details_include}

module _ (P : Platform) where
  -- The search text is found in the executable, in the digits of the process id, or in the details as JSON.
  abbrev pub IsFound : String → KernelEvent → Type 0
  IsFound q e =
      OccursIn (P.to_lower_case e.exe) q
      ⊎ OccursIn (decimal e.pid) q
      ⊎ ((details : Json) × (e.details ≡ some details)
          × OccursIn (P.to_lower_case (P.stringify details)) q)

  abbrev pub IsOfKind : Option EventKind → KernelEvent → Type 0
  IsOfKind none e = Unit {0}
  IsOfKind (some kind) e = kind_name e.kind ≡ kind_name kind

  abbrev pub Passes : Option EventKind → String → KernelEvent → Type 0
  Passes kind search e =
      IsOfKind kind e × ((truthy (trim search) ≡ false) ⊎ IsFound (P.to_lower_case (trim search)) e)

  details_include_iff :
      (q : String) (o : Option Json)
      → (details_include P q o ≡ true) ↔ (
          (details : Json) × (o ≡ some details)
          × OccursIn (P.to_lower_case (P.stringify details)) q)
  details_include_iff q none = (λ e. cc, λ (details, e, h). cc)
  details_include_iff q (some details) = (
    λ e. (details, refl, (includes_iff _ q).0 e),
    λ (other, e, h). let found = (includes_iff (P.to_lower_case (P.stringify other)) q).1 h in cc,
  )

  matches_query_iff : (q : String) (e : KernelEvent) → (matches_query P q e ≡ true) ↔ IsFound q e
  unfolding matches_query
  matches_query_iff q e = ground (
    arith,
    (includes_iff (P.to_lower_case e.exe) q).0,
    (includes_iff (P.to_lower_case e.exe) q).1,
    (includes_iff (decimal e.pid) q).0,
    (includes_iff (decimal e.pid) q).1,
    (details_include_iff q e.details).0,
    (details_include_iff q e.details).1,
  )

  -- The two tests of the page, as one.
  abbrev is_shown : Option EventKind → String → KernelEvent → Bool
  is_shown none search e =
      not (truthy (trim search)) || matches_query P (P.to_lower_case (trim search)) e
  is_shown (some kind) search e =
      kind_eq e.kind kind
      && (not (truthy (trim search)) || matches_query P (P.to_lower_case (trim search)) e)

  is_shown_iff :
      (kind : Option EventKind) (search : String) (e : KernelEvent)
      → (is_shown kind search e ≡ true) ↔ Passes kind search e
  unfolding kind_eq
  is_shown_iff none search e = ground (
    arith,
    (matches_query_iff (P.to_lower_case (trim search)) e).0,
    (matches_query_iff (P.to_lower_case (trim search)) e).1,
  )
  is_shown_iff (some kind) search e = ground (
    arith,
    eq_iff (kind_name e.kind) (kind_name kind),
    (matches_query_iff (P.to_lower_case (trim search)) e).0,
    (matches_query_iff (P.to_lower_case (trim search)) e).1,
  )

module _ {A : Type 0} where
  filter-filter :
      (p q : A → Bool) (xs : List A) → filter p (filter q xs) ≡ filter (λ x. q x && p x) xs
  filter-filter p q [] = refl
  filter-filter p q (x ∷ xs) = ground (arith, filter-filter p q xs)

  filter_or_all :
      (b : Bool) (p : A → Bool) (xs : List A)
      → (if b then filter p xs else xs) ≡ filter (λ x. not b || p x) xs
  filter_or_all true p xs = refl
  filter_or_all false p xs = sym (filter-true xs)

filtered-is_shown :
    (P : Platform) (kind : Option EventKind) (search : String) (events : List KernelEvent)
    → filtered P kind search events ≡ filter (is_shown P kind search) events
unfolding filtered
filtered-is_shown P none search events = filter_or_all (truthy (trim search)) _ events
filtered-is_shown P (some kind) search events =
    filter_or_all (truthy (trim search)) _ (keep_kind (some kind) events) ∙ filter-filter _ _ events

-- The stream shows, in the order in which the state holds them, exactly the events that pass: the kind is
-- the chosen one, or all are chosen; and the search text without the white space around it is empty, or in
-- lower case it stands somewhere in the executable in lower case, in the decimal digits of the process id,
-- or in the details, if there are any, as JSON in lower case.
pub filtered-Passes :
    (P : Platform) (kind : Option EventKind) (search : String) (events : List KernelEvent)
    → (test : KernelEvent → Bool) × ((e : KernelEvent) → (test e ≡ true) ↔ Passes P kind search e)
      × (filtered P kind search events ≡ filter test events)
filtered-Passes P kind search events =
    (is_shown P kind search, is_shown_iff P kind search, filtered-is_shown P kind search events)
