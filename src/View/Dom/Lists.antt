-- ===== src/View/Dom/Lists.antt =====
-- What the items of a mapped list offer, from what each item offers.
use guardian_os_ai.Base.{
  ◌≡◌, refl, ap, Bool, true, false, String, List, [], ◌∷◌, Option, none, some, All, All-append, map,
  ltb, length, arith, if◌then◌else◌,
}
use guardian_os_ai.View.Dom.{Node, Intent, nodes, each, when, when_text, clicks, links}

module _ {ℓ} {A : Type ℓ} (view : A → Node) where
  -- Items that offer nothing.
  pub clicks-each_none :
      ((a : A) → clicks (view a) ≡ []) → (list : List A) → clicks (each view list) ≡ []
  unfolding clicks each nodes
  clicks-each_none none_of [] = refl
  clicks-each_none none_of (a ∷ list) = rw (none_of a) (clicks-each_none none_of list)

  pub links-each_none :
      ((a : A) → links (view a) ≡ []) → (list : List A) → links (each view list) ≡ []
  unfolding links each nodes
  links-each_none none_of [] = refl
  links-each_none none_of (a ∷ list) = rw (none_of a) (links-each_none none_of list)

  -- Items that offer one click, or have one link, each.
  pub clicks-each_one :
      (intent : A → Intent)
      → ((a : A) → clicks (view a) ≡ intent a ∷ [])
      → (list : List A) → clicks (each view list) ≡ map intent list
  unfolding clicks each nodes
  clicks-each_one intent one_of [] = refl
  clicks-each_one intent one_of (a ∷ list) =
      rw (one_of a) (ap (λ rest. intent a ∷ rest) (clicks-each_one intent one_of list))

  pub links-each_one :
      (route : A → String)
      → ((a : A) → links (view a) ≡ route a ∷ [])
      → (list : List A) → links (each view list) ≡ map route list
  unfolding links each nodes
  links-each_one route one_of [] = refl
  links-each_one route one_of (a ∷ list) =
      rw (one_of a) (ap (λ rest. route a ∷ rest) (links-each_one route one_of list))

-- The clicks and links of a node that is shown on a condition.
pub clicks-when : (b : Bool) (n : Node) → clicks (when b n) ≡ (if b then clicks n else [])
unfolding clicks when
clicks-when true n = refl
clicks-when false n = refl

pub links-when : (b : Bool) (n : Node) → links (when b n) ≡ (if b then links n else [])
unfolding links when
links-when true n = refl
links-when false n = refl

-- A text that is shown when there is one.
pub clicks-when_text :
    (o : Option String) (view : String → Node)
    → ((s : String) → clicks (view s) ≡ [])
    → clicks (when_text o view) ≡ []
unfolding clicks when_text
clicks-when_text none view none_of = refl
clicks-when_text (some s) view none_of = ground (arith, none_of s)

pub links-when_text :
    (o : Option String) (view : String → Node)
    → ((s : String) → links (view s) ≡ [])
    → links (when_text o view) ≡ []
unfolding links when_text
links-when_text none view none_of = refl
links-when_text (some s) view none_of = ground (arith, none_of s)

-- A list that is not shown as it is empty.
pub map_nothing {ℓ κ} :
    {A : Type ℓ} {B : Type κ} (f : A → B) (list : List A)
    → ltb 0 (length list) ≡ false
    → map f list ≡ []
map_nothing f [] e = refl
map_nothing f (a ∷ list) e = ground arith

-- What holds of each link of each item holds of each link of the list.
module _ {ℓ} {A : Type ℓ} (view : A → Node) (P : String → Type 0) (Q : A → Type 0)
    (gives : (a : A) → Q a → All P (links (view a))) where
  pub links-each-All : (list : List A) → All Q list → All P (links (each view list))
  unfolding links each nodes
  links-each-All [] h = tt
  links-each-All (a ∷ list) (h, k) = All-append P _ _ (gives a h) (links-each-All list k)
