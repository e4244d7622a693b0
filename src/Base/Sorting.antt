-- ===== src/Base/Sorting.antt =====
-- `list.sort((a, b) => key(b) - key(a))`: newest first, and stable, as the language demands.
use Prim.Native.Nat.{ℕ, ◌≤◌}
use mathlib.Core.Path.{◌≡◌, refl, ap, ◌∙◌}
use mathlib.Core.Bool.{Bool, true}
use mathlib.Core.Logic.{inl, inr}
use mathlib.Core.List.{List, [], ◌∷◌, Perm}
use mathlib.Core.List.Perm
use native.Mathlib.Omega.{arith}
use guardian_os_ai.Base.Tests.{◌==◌, leb, if◌then◌else◌, Bool-cases}
use guardian_os_ai.Base.Lists.{filter, count, All, Any, here, there}

module _ {ℓ} {A : Type ℓ} (key : A → ℕ) where
  -- An element goes in front of those that are not newer, so elements of one key keep their order.
  unfoldable pub insert_desc : A → List A → List A
  insert_desc x [] = x ∷ []
  insert_desc x (y ∷ ys) =
      let rest = insert_desc x ys in if leb (key y) (key x) then x ∷ y ∷ ys else y ∷ rest

  unfoldable pub sort_desc : List A → List A
  unfolding insert_desc
  sort_desc [] = []
  sort_desc (x ∷ xs) = insert_desc x (sort_desc xs)

  -- No element is followed by one with a greater key.
  abbrev pub IsNewestFirst : List A → Type 0
  IsNewestFirst [] = Unit
  IsNewestFirst (x ∷ xs) = All (λ y. key y ≤ key x) xs × IsNewestFirst xs

  abbrev pub has_key : ℕ → A → Bool
  has_key k x = key x == k

  All-le_trans : (a b : ℕ) (xs : List A) → a ≤ b → All (λ y. key y ≤ a) xs → All (λ y. key y ≤ b) xs
  All-le_trans a b [] h k = tt
  All-le_trans a b (x ∷ xs) h (p, k) = (omega arith, All-le_trans a b xs h k)

  All-insert_desc :
      (b : ℕ) (x : A) (ys : List A)
      → key x ≤ b
      → All (λ y. key y ≤ b) ys
      → All (λ y. key y ≤ b) (insert_desc x ys)
  unfolding insert_desc
  All-insert_desc b x [] h k = (h, tt)
  All-insert_desc b x (y ∷ ys) h (p, k) = ground (arith, All-insert_desc b x ys h k)

  insert_desc-IsNewestFirst :
      (x : A) (ys : List A) → IsNewestFirst ys → IsNewestFirst (insert_desc x ys)
  unfolding insert_desc
  insert_desc-IsNewestFirst x [] h = (tt, tt)
  insert_desc-IsNewestFirst x (y ∷ ys) (p, h) = elim (Bool-cases (leb (key y) (key x))) [
    | inl e ↦ rw e ((ground arith, All-le_trans (key y) (key x) ys (ground arith) p), (p, h))
    | inr e ↦ rw e (All-insert_desc (key y) x ys (ground arith) p, insert_desc-IsNewestFirst x ys h)
  ]

  pub sort_desc-IsNewestFirst : (xs : List A) → IsNewestFirst (sort_desc xs)
  unfolding sort_desc
  sort_desc-IsNewestFirst [] = tt
  sort_desc-IsNewestFirst (x ∷ xs) =
      insert_desc-IsNewestFirst x (sort_desc xs) (sort_desc-IsNewestFirst xs)

  insert_desc-perm : (x : A) (ys : List A) → Perm (insert_desc x ys) (x ∷ ys)
  unfolding insert_desc
  insert_desc-perm x [] = Perm.refl _
  insert_desc-perm x (y ∷ ys) = elim (Bool-cases (leb (key y) (key x))) [
    | inl e ↦ rw e (Perm.refl _)
    | inr e ↦ rw e (Perm.trans (Perm.cons y (insert_desc-perm x ys)) (Perm.swap x y ys))
  ]

  pub sort_desc-perm : (xs : List A) → Perm (sort_desc xs) xs
  unfolding sort_desc
  sort_desc-perm [] = Perm.refl _
  sort_desc-perm (x ∷ xs) =
      Perm.trans (insert_desc-perm x (sort_desc xs)) (Perm.cons x (sort_desc-perm xs))

  insert_desc-stable :
      (k : ℕ) (x : A) (ys : List A)
      → filter (has_key k) (insert_desc x ys) ≡ filter (has_key k) (x ∷ ys)
  unfolding insert_desc
  insert_desc-stable k x [] = refl
  insert_desc-stable k x (y ∷ ys) = ground (arith, insert_desc-stable k x ys)

  -- Elements of one key keep the order that they came in.
  pub sort_desc-stable :
      (k : ℕ) (xs : List A) → filter (has_key k) (sort_desc xs) ≡ filter (has_key k) xs
  unfolding sort_desc
  sort_desc-stable k [] = refl
  sort_desc-stable k (x ∷ xs) =
      ground (arith, insert_desc-stable k x (sort_desc xs), sort_desc-stable k xs)

  count-insert_desc :
      (p : A → Bool) (x : A) (ys : List A) → count p (insert_desc x ys) ≡ count p (x ∷ ys)
  unfolding insert_desc
  count-insert_desc p x [] = refl
  count-insert_desc p x (y ∷ ys) = ground (arith, count-insert_desc p x ys)

  pub count-sort_desc : (p : A → Bool) (xs : List A) → count p (sort_desc xs) ≡ count p xs
  unfolding sort_desc
  count-sort_desc p [] = refl
  count-sort_desc p (x ∷ xs) =
      ground (arith, count-insert_desc p x (sort_desc xs), count-sort_desc p xs)

  All-filter_le :
      (b : ℕ) (p : A → Bool) (xs : List A)
      → All (λ y. key y ≤ b) xs
      → All (λ y. key y ≤ b) (filter p xs)
  All-filter_le b p [] h = tt
  All-filter_le b p (x ∷ xs) (h, k) = elim (Bool-cases (p x)) [
    | inl e ↦ rw e (h, All-filter_le b p xs k)
    | inr e ↦ rw e (All-filter_le b p xs k)
  ]

  IsNewestFirst-filter :
      (p : A → Bool) (xs : List A) → IsNewestFirst xs → IsNewestFirst (filter p xs)
  IsNewestFirst-filter p [] h = tt
  IsNewestFirst-filter p (x ∷ xs) (h, k) = elim (Bool-cases (p x)) [
    | inl e ↦ rw e (All-filter_le (key x) p xs h, IsNewestFirst-filter p xs k)
    | inr e ↦ rw e (IsNewestFirst-filter p xs k)
  ]

  filter_comm : (p q : A → Bool) (xs : List A) → filter p (filter q xs) ≡ filter q (filter p xs)
  filter_comm p q [] = refl
  filter_comm p q (x ∷ xs) = ground (arith, filter_comm p q xs)

  -- `out` shows the elements of `xs` that pass `p`: newest first, each as often as it is in `xs`, and
  -- those of one key in the order of `xs`.
  pub record IsView (p : A → Bool) (xs out : List A) : Type ℓ where
    pub newest_first : IsNewestFirst out
    pub same_of_key : (k : ℕ) → filter (has_key k) out ≡ filter (has_key k) (filter p xs)

  pub filter-sort_desc-IsView : (p : A → Bool) (xs : List A) → IsView p xs (filter p (sort_desc xs))
  filter-sort_desc-IsView p xs = record {
    newest_first = IsNewestFirst-filter p (sort_desc xs) (sort_desc-IsNewestFirst xs);
    same_of_key = λ k.
        filter_comm (has_key k) p (sort_desc xs)
        ∙ ap (filter p) (sort_desc-stable k xs)
        ∙ filter_comm p (has_key k) xs;
  }

  pub sort_desc-filter-IsView : (p : A → Bool) (xs : List A) → IsView p xs (sort_desc (filter p xs))
  sort_desc-filter-IsView p xs = record {
    newest_first = sort_desc-IsNewestFirst (filter p xs);
    same_of_key = λ k. sort_desc-stable k (filter p xs);
  }

module _ {ℓ} {A : Type ℓ} where
  pub filter-true : (xs : List A) → filter (λ x. true) xs ≡ xs
  filter-true [] = refl
  filter-true (x ∷ xs) = rw (filter-true xs)

module _ {ℓ κ} {A : Type ℓ} (key : A → ℕ) {P : A → Type κ} where
  Any-swap :
      (y : A) {x : A} {ys zs : List A}
      → (Any P (x ∷ ys) → Any P zs)
      → Any P (x ∷ y ∷ ys)
      → Any P (y ∷ zs)
  Any-swap y f (here p) = there (f (here p))
  Any-swap y f (there (here p)) = here p
  Any-swap y f (there (there q)) = there (f (there q))

  Any-insert_desc : (x : A) (ys : List A) → Any P (x ∷ ys) → Any P (insert_desc key x ys)
  unfolding insert_desc
  Any-insert_desc x [] h = h
  Any-insert_desc x (y ∷ ys) h = elim (Bool-cases (leb (key y) (key x))) [
    | inl e ↦ rw e h
    | inr e ↦ rw e (Any-swap y (λ g. Any-insert_desc x ys g) h)
  ]

  pub Any-sort_desc : (xs : List A) → Any P xs → Any P (sort_desc key xs)
  unfolding sort_desc
  Any-sort_desc [] h = elim h [ ]
  Any-sort_desc (x ∷ xs) (here p) = Any-insert_desc x (sort_desc key xs) (here p)
  Any-sort_desc (x ∷ xs) (there h) =
      Any-insert_desc x (sort_desc key xs) (there (Any-sort_desc xs h))

-- What holds of each element is kept by a filter and by a sort.
module _ {ℓ κ} {A : Type ℓ} (P : A → Type κ) where
  pub All-filter : (p : A → Bool) (xs : List A) → All P xs → All P (filter p xs)
  All-filter p [] h = tt
  All-filter p (x ∷ xs) (h, k) = elim (Bool-cases (p x)) [
    | inl e ↦ rw e (h, All-filter p xs k)
    | inr e ↦ rw e (All-filter p xs k)
  ]

  All-insert_desc_each :
      (key : A → ℕ) (x : A) (xs : List A) → P x → All P xs → All P (insert_desc key x xs)
  unfolding insert_desc
  All-insert_desc_each key x [] p h = (p, tt)
  All-insert_desc_each key x (y ∷ ys) p (h, k) = elim (Bool-cases (leb (key y) (key x))) [
    | inl e ↦ rw e (p, (h, k))
    | inr e ↦ rw e (h, All-insert_desc_each key x ys p k)
  ]

  pub All-sort_desc : (key : A → ℕ) (xs : List A) → All P xs → All P (sort_desc key xs)
  unfolding sort_desc
  All-sort_desc key [] h = tt
  All-sort_desc key (x ∷ xs) (p, h) =
      All-insert_desc_each key x (sort_desc key xs) p (All-sort_desc key xs h)
