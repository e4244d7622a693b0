-- ===== src/Base/Lists.antt =====
-- Array operations over the native numbers, and the insertion-ordered `Map` of JavaScript.
use Prim.Native.Nat.{ℕ, zero, suc, ◌+◌, ◌≤◌}
use mathlib.Core.Path.{◌≡◌, refl, ap, subst}
use mathlib.Core.Bool.{Bool, false, ◌||◌}
use mathlib.Core.Option.{Option, none, some}
use mathlib.Core.List.{List, [], ◌∷◌, ◌++◌, map}
use native.Mathlib.Omega.{arith}
use mathlib.Core.Logic.{inl, inr}
use guardian_os_ai.Base.Tests.{if◌then◌else◌, Bool-cases}

module _ {ℓ} {A : Type ℓ} where
  abbrev pub length : List A → ℕ
  length [] = 0
  length (x ∷ xs) = suc (length xs)

  abbrev pub get_elem? : List A → ℕ → Option A
  get_elem? [] i = none
  get_elem? (x ∷ xs) zero = some x
  get_elem? (x ∷ xs) (suc i) = get_elem? xs i

  -- A write out of bounds changes nothing here; the source never makes one.
  abbrev pub set : List A → ℕ → A → List A
  set [] i v = []
  set (x ∷ xs) zero v = v ∷ xs
  set (x ∷ xs) (suc i) v = x ∷ set xs i v

  abbrev pub take : ℕ → List A → List A
  take zero xs = []
  take (suc n) [] = []
  take (suc n) (x ∷ xs) = x ∷ take n xs

  abbrev pub replicate : ℕ → A → List A
  replicate zero a = []
  replicate (suc n) a = a ∷ replicate n a

  -- `list.filter(p)`
  abbrev pub filter : (A → Bool) → List A → List A
  filter p [] = []
  filter p (x ∷ xs) = let rest = filter p xs in if p x then x ∷ rest else rest

  -- `list.some(p)`
  abbrev pub any : (A → Bool) → List A → Bool
  any p [] = false
  any p (x ∷ xs) = p x || any p xs

  -- `list.find(p)`
  abbrev pub find : (A → Bool) → List A → Option A
  find p [] = none
  find p (x ∷ xs) = let rest = find p xs in if p x then some x else rest

  abbrev pub count : (A → Bool) → List A → ℕ
  count p [] = 0
  count p (x ∷ xs) = let rest = count p xs in if p x then suc rest else rest

  abbrev pub head? : List A → Option A
  head? [] = none
  head? (x ∷ xs) = some x

  pub length-append : (xs ys : List A) → length (xs ++ ys) ≡ length xs + length ys
  length-append [] ys = omega arith
  length-append (x ∷ xs) ys = omega (arith, length-append xs ys)

  pub length-take-le : (n : ℕ) (xs : List A) → length (take n xs) ≤ n
  length-take-le zero xs = omega arith
  length-take-le (suc n) [] = omega arith
  length-take-le (suc n) (x ∷ xs) = omega (arith, length-take-le n xs)

  pub length-set : (xs : List A) (i : ℕ) (v : A) → length (set xs i v) ≡ length xs
  length-set [] i v = refl
  length-set (x ∷ xs) zero v = refl
  length-set (x ∷ xs) (suc i) v = ap suc (length-set xs i v)

  pub length-replicate : (n : ℕ) (a : A) → length (replicate n a) ≡ n
  length-replicate zero a = refl
  length-replicate (suc n) a = ap suc (length-replicate n a)

  pub length-filter : (p : A → Bool) (xs : List A) → length (filter p xs) ≡ count p xs
  length-filter p [] = refl
  length-filter p (x ∷ xs) = ground (arith, length-filter p xs)

  pub count-append : (p : A → Bool) (xs ys : List A) → count p (xs ++ ys) ≡ count p xs + count p ys
  count-append p [] ys = omega arith
  count-append p (x ∷ xs) ys = ground (arith, count-append p xs ys)

-- `P` holds of every element.
module _ {ℓ κ} {A : Type ℓ} (P : A → Type κ) where
  abbrev pub All : List A → Type κ
  All [] = Unit
  All (x ∷ xs) = P x × All xs

module _ {ℓ κ} {A : Type ℓ} (P : A → Type κ) where
  pub All-append : (xs ys : List A) → All P xs → All P ys → All P (xs ++ ys)
  All-append [] ys h k = k
  All-append (x ∷ xs) ys (p, h) k = (p, All-append xs ys h k)

-- `P` holds of an element, with its witness.
module _ {ℓ κ} {A : Type ℓ} (P : A → Type κ) where
  pub data Any : List A → Type (ℓ ⊔ κ) where
    here : {x : A} {xs : List A} → P x → Any (x ∷ xs)
    there : {x : A} {xs : List A} → Any xs → Any (x ∷ xs)

module _ {ℓ κ} {A : Type ℓ} {P : A → Type κ} where
  pub Any-append_left : {xs : List A} (ys : List A) → Any P xs → Any P (xs ++ ys)
  Any-append_left ys (here h) = here h
  Any-append_left ys (there h) = there (Any-append_left ys h)

  pub Any-append_right : (xs : List A) {ys : List A} → Any P ys → Any P (xs ++ ys)
  Any-append_right [] h = h
  Any-append_right (x ∷ xs) h = there (Any-append_right xs h)

module _ {ℓ} {A : Type ℓ} where
  pub Any-of_get_elem? :
      (xs : List A) (i : ℕ) {a : A} → get_elem? xs i ≡ some a → Any (λ x. x ≡ a) xs
  Any-of_get_elem? [] i e = cc
  Any-of_get_elem? (x ∷ xs) zero e = here (cc)
  Any-of_get_elem? (x ∷ xs) (suc i) e = there (Any-of_get_elem? xs i e)

-- `All` along an implication, and along a mapped list.
module _ {ℓ κ μ} {A : Type ℓ} {P : A → Type κ} {Q : A → Type μ} where
  pub All-imp : ((a : A) → P a → Q a) → (xs : List A) → All P xs → All Q xs
  All-imp gives [] h = tt
  All-imp gives (x ∷ xs) (p, h) = (gives x p, All-imp gives xs h)

module _ {ℓ κ μ} {A : Type ℓ} {B : Type κ} (f : A → B) (P : B → Type μ) where
  pub All-map : (xs : List A) → All (λ a. P (f a)) xs → All P (map f xs)
  All-map [] h = tt
  All-map (x ∷ xs) (p, h) = (p, All-map xs h)

  pub All-map_each : ((a : A) → P (f a)) → (xs : List A) → All P (map f xs)
  All-map_each gives [] = tt
  All-map_each gives (x ∷ xs) = (gives x, All-map_each gives xs)

module _ {ℓ} {A : Type ℓ} where
  -- Every element stands in its list.
  pub All-self : (xs : List A) → All (λ a. Any (λ b. b ≡ a) xs) xs
  All-self [] = tt
  All-self (x ∷ xs) = (here refl, All-imp (λ a h. there h) xs (All-self xs))

module _ {ℓ κ μ} {A : Type ℓ} {P : A → Type κ} {Q : A → Type μ} where
  pub Any-imp : ((a : A) → P a → Q a) → {xs : List A} → Any P xs → Any Q xs
  Any-imp gives (here {x} p) = here (gives x p)
  Any-imp gives (there h) = there (Any-imp gives h)

module _ {ℓ κ} {A : Type ℓ} (P : A → Type κ) where
  pub All-at : (xs : List A) {a : A} → All P xs → Any (λ x. x ≡ a) xs → P a
  All-at [] h k = elim k [ ]
  All-at (x ∷ xs) (p, h) (here e) = subst P e p
  All-at (x ∷ xs) (p, h) (there k) = All-at xs h k

module _ {ℓ} {A : Type ℓ} where
  pub Any-of_find : (p : A → Bool) (xs : List A) {a : A} → find p xs ≡ some a → Any (λ x. x ≡ a) xs
  Any-of_find p [] e = cc
  Any-of_find p (x ∷ xs) e = elim (Bool-cases (p x)) [
    | inl holds ↦ here (ground (arith, holds))
    | inr fails ↦ there (Any-of_find p xs (ground (arith, fails)))
  ]
