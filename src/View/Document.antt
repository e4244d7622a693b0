-- ===== src/View/Document.antt =====
-- What a component leaves on the document: its listener of an event, and the `overflow` of the body. The
-- effects of frontend/src/components/ui/modal/index.tsx and dropdown/Dropdown.tsx. A function object is a
-- number: React compares dependencies by identity, and so does removeEventListener.
pub mod Modals
pub mod Dropdowns
use guardian_os_ai.Base.{
  ℕ, ◌+◌, ◌<◌, ◌≤◌, ◌≡◌, refl, arith, All, Bool, true, false, String, List, [], ◌∷◌, ◌++◌, Option,
  none, some, filter, map, not, if◌then◌else◌, ◌==◌, ◌||◌, ◌&&◌,
}

-- A listener is a function object of its own, and calls `onClose` of the props that it was made for.
pub record Listener : Type 0 where
  pub identity : ℕ
  pub on_close : ℕ

pub record Document : Type 0 where
  -- of the event that the component listens to, in the order of adding
  pub listeners : List Listener
  pub overflow : String

unfoldable pub add_listener : Listener → Document → Document
add_listener f d = record d { listeners = d.listeners ++ f ∷ [] }

unfoldable pub remove_listener : ℕ → Document → Document
remove_listener identity d = record d {
  listeners = filter (λ f. not (f.identity == identity)) d.listeners;
}

unfoldable pub set_overflow : String → Document → Document
set_overflow value d = record d { overflow = value }

-- The properties that the effects depend on.
pub record Props : Type 0 where
  pub is_open : Bool
  pub on_close : ℕ

abbrev pub same_bool : Bool → Bool → Bool
same_bool true b = b
same_bool false b = not b

pub same_bool-eq : (a b : Bool) → same_bool a b ≡ true → a ≡ b
same_bool-eq true true e = refl
same_bool-eq true false e = cc
same_bool-eq false true e = cc
same_bool-eq false false e = refl

-- A mounted component on the document: its props, the listener that its effect made last, and the next
-- function object to be made.
pub record Scene : Type 0 where
  pub document : Document
  pub props : Props
  pub listener : Listener
  pub fresh : ℕ

-- The listeners were made before the function object `n`.
abbrev pub AreOlder : ℕ → List Listener → Type 0
AreOlder n = All (λ f. f.identity < n)

-- Removing a newer function object leaves the listeners alone.
pub filter-AreOlder :
    (n identity : ℕ) (fs : List Listener)
    → AreOlder n fs
    → n ≤ identity
    → filter (λ f. not (f.identity == identity)) fs ≡ fs
filter-AreOlder n identity [] h later = refl
filter-AreOlder n identity (f ∷ fs) (old, h) later =
    ground (arith, old, later, filter-AreOlder n identity fs h later)

pub filter-append :
    (p : Listener → Bool) (xs ys : List Listener) → filter p (xs ++ ys) ≡ filter p xs ++ filter p ys
filter-append p [] ys = refl
filter-append p (x ∷ xs) ys = ground (arith, filter-append p xs ys)
